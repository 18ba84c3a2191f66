-- ===== src/Examples.antt =====
-- The binary search on the numbers below 10.
use webanalyticsdb.Prelude.{arith, ltb}
use webanalyticsdb.Bisect.{search_between, search_between-Boundary, Boundary}

search_between-Boundary_example : Boundary (λ i. ltb i 7) 2 10 (search_between (λ i. ltb i 7) 2 10)
search_between-Boundary_example =
    search_between-Boundary (λ i. ltb i 7) 2 10 (omega arith) (λ i j p q r h. ground arith)
