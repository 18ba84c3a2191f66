-- ===== src/Stats.antt =====
-- core/stats.c: latency histograms, the ring of commit notifications, pages of segments.
mod Examples
pub mod Histogram
pub mod Notifications
pub mod Pages
