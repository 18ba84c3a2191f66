-- ===== src/Query/Cache.antt =====
-- query/cache.c: the cache of the dictionaries of sealed segments. Its list of entries is a list, newest
-- first, and the pointer that a reader holds to an entry is the entry's key. An acquisition takes the
-- lock twice, around the load of a dictionary: `reserve` is what happens under the first, `publish` what
-- happens under the second.
pub mod Budget
pub mod Readers
pub mod Refusal
mod Examples
use webanalyticsdb.Prelude.{
  ℕ, zero, suc, ◌+◌, ◌-◌, ◌*◌, Bool, true, false, not, ◌&&◌, ◌||◌, List, [], ◌∷◌, ltb, ◌==◌,
  if◌then◌else◌, length, Option, none, some,
}
use webanalyticsdb.Core.Status.{Result, ok, err}
use webanalyticsdb.Dictionary.{Dictionary}

pub record Key : Type 0 where
  pub table_id : ℕ
  pub segment_id : ℕ
  pub covered_bytes : ℕ
  pub dictionary_crc : ℕ

pub record Entry : Type 0 where
  pub key : Key
  pub used : ℕ
  pub references : ℕ
  pub charge : ℕ
  pub dictionary : Dictionary

pub record Cache : Type 0 where
  pub entries : List Entry
  pub bytes : ℕ
  pub clock : ℕ
  pub hits : ℕ
  pub misses : ℕ

pub record CacheLimits : Type 0 where
  pub dictionary_limit_bytes : ℕ
  pub read_cache_bytes : ℕ

-- How the first part ends: with an entry, without room, or with a reservation.
pub data Outcome : Type 0 where
  hit pinned reserved : Outcome

abbrev sizeof_cache_entry : ℕ
sizeof_cache_entry = 72

unfoldable pub same_key : Key → Key → Bool
same_key a b =
    a.table_id == b.table_id
    && a.segment_id == b.segment_id
    && a.covered_bytes == b.covered_bytes
    && a.dictionary_crc == b.dictionary_crc

unfoldable pub has_entry : Key → List Entry → Bool
has_entry k [] = false
has_entry k (e ∷ es) = same_key e.key k || has_entry k es

-- ++p->references; p->used = used
unfoldable pub pin : Key → ℕ → List Entry → List Entry
pin k used [] = []
pin k used (e ∷ es) =
    if same_key e.key k
    then record e { used = used; references = e.references + 1 } ∷ es
    else e ∷ pin k used es

-- --entry->references
unfoldable pub unpin : Key → List Entry → List Entry
unpin k [] = []
unpin k (e ∷ es) =
    if same_key e.key k then record e { references = e.references - 1 } ∷ es else e ∷ unpin k es

-- Whether an entry that was used at a time is older than the oldest one so far.
unfoldable pub is_older : ℕ → Option (ℕ × ℕ) → Bool
is_older used none = true
is_older used (some (position, oldest)) = ltb used oldest

-- The position and the use of the entry that is evicted: of those without references the one that
-- was not used for the longest time; `best` is the choice among the entries before `i`.
unfoldable pub oldest_from : Option (ℕ × ℕ) → ℕ → List Entry → Option (ℕ × ℕ)
unfolding is_older
oldest_from best i [] = best
oldest_from best i (e ∷ es) =
    oldest_from (if e.references == 0 && is_older e.used best then some (i, e.used) else best)
      (i + 1) es

unfoldable pub charge_at : ℕ → List Entry → ℕ
charge_at n [] = 0
charge_at zero (e ∷ es) = e.charge
charge_at (suc n) (e ∷ es) = charge_at n es

unfoldable pub remove_at : ℕ → List Entry → List Entry
remove_at n [] = []
remove_at zero (e ∷ es) = es
remove_at (suc n) (e ∷ es) = e ∷ remove_at n es

unfoldable pub evict : ℕ → Cache → Cache
unfolding charge_at remove_at
evict n c = record c { entries = remove_at n c.entries; bytes = c.bytes - charge_at n c.entries }

unfoldable pub reservation : CacheLimits → ℕ
reservation o = o.dictionary_limit_bytes + sizeof_cache_entry

unfoldable pub is_short : CacheLimits → Cache → Bool
is_short o c = ltb (o.read_cache_bytes - c.bytes) (reservation o)

-- while (reservation > limit - bytes): every round evicts an entry, or gives up where all of them are
-- in use. Whether there is room then.
unfoldable pub make_room : CacheLimits → ℕ → Cache → Cache × Bool
unfolding evict is_short oldest_from
make_room o zero c = (c, not (is_short o c))
make_room o (suc fuel) c =
    if is_short o c
    then elim (oldest_from none 0 c.entries) [
      | none ↦ (c, false)
      | some (n, used) ↦ make_room o fuel (evict n c)
    ]
    else (c, true)

unfoldable pub with_reservation : CacheLimits → Cache × Bool → Cache × Outcome
unfolding reservation
with_reservation o (c, true) = (record c { bytes = c.bytes + reservation o }, reserved)
with_reservation o (c, false) = (c, pinned)

unfoldable pub reserve : CacheLimits → Key → Cache → Cache × Outcome
unfolding has_entry pin make_room with_reservation
reserve o k c =
    if has_entry k c.entries
    then (
      record c { entries = pin k (c.clock + 1) c.entries; clock = c.clock + 1; hits = c.hits + 1 },
      hit,
    )
    else with_reservation o (make_room o (length c.entries) (record c { misses = c.misses + 1 }))

unfoldable pub new_entry : Key → ℕ → Dictionary → Entry
new_entry k used d = record {
  key = k;
  used = used;
  references = 1;
  charge = sizeof_cache_entry + d.allocated_bytes;
  dictionary = d;
}

-- Another reader may have published the same dictionary in the meantime: its copy is kept.
unfoldable pub publish : CacheLimits → Key → Result Dictionary → Cache → Cache
unfolding reservation has_entry pin new_entry
publish o k (err status) c = record c { bytes = c.bytes - reservation o }
publish o k (ok d) c =
    if has_entry k c.entries
    then record c {
      entries = pin k (c.clock + 1) c.entries;
      bytes = c.bytes - reservation o;
      clock = c.clock + 1;
    }
    else record c {
      entries = new_entry k (c.clock + 1) d ∷ c.entries;
      bytes = c.bytes - reservation o + (new_entry k (c.clock + 1) d).charge;
      clock = c.clock + 1;
    }

unfoldable pub release : Key → Cache → Cache
unfolding unpin
release k c = record c { entries = unpin k c.entries }

unfoldable pub clear : Cache → Cache
clear c = record c { entries = []; bytes = 0 }
