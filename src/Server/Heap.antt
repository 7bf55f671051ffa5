-- ===== src/Server/Heap.antt =====
-- src/providers/server/HeapMonitor.ts: snapshots of the heap when it is large.
use startup_api.Base.{
  ℕ, suc, ◌+◌, ◌*◌, ◌≤◌, String, ◌≡◌, Bool, ◌&&◌, List, [], ◌∷◌, if◌then◌else◌, ltb, leb, keep, not,
  length, arith,
}

abbrev pub max_heap_size : ℕ
max_heap_size = 500 * 1024 * 1024 * 2

abbrev pub max_snapshots : ℕ
max_snapshots = 2

-- `files` are those of the folder of logs.
pub record Heap : Type 0 where
  pub files : List String
  pub snapshot_qty : ℕ

-- What the interval meets: the size of the heap, and the name of a file, if it can be written.
pub record Tick : Type 0 where
  pub heap_used : ℕ
  pub writes : Bool
  pub file_name : String

-- What fails in writing is logged, and counts.
unfoldable pub check_heap : Tick → Heap → Heap
check_heap t h =
    if leb max_heap_size t.heap_used && ltb h.snapshot_qty max_snapshots
    then record {
      files = if t.writes then t.file_name ∷ h.files else h.files;
      snapshot_qty = suc h.snapshot_qty;
    }
    else h

-- `ends_with` is `endsWith`.
unfoldable pub clear_heapsnapshots : (String → String → Bool) → List String → List String
clear_heapsnapshots ends_with files = keep (λ f. not (ends_with f ".heapsnapshot")) files

abbrev pub run : List Tick → Heap → Heap
run [] h = h
run (t ∷ ts) h = run ts (check_heap t h)

unfoldable pub monitor : (String → String → Bool) → List Tick → Heap → Heap
unfolding check_heap clear_heapsnapshots
monitor ends_with ticks h = run ticks (record h { files = clear_heapsnapshots ends_with h.files })

check_heap_bounds :
    (t : Tick) (h : Heap)
    → h.snapshot_qty ≤ max_snapshots
    → ((check_heap t h).snapshot_qty ≤ max_snapshots)
      × (length (check_heap t h).files + h.snapshot_qty
          ≤ length h.files + (check_heap t h).snapshot_qty)
unfolding check_heap
check_heap_bounds t h b = (ground arith, ground arith)

run_bounds :
    (ts : List Tick) (h : Heap)
    → h.snapshot_qty ≤ max_snapshots
    → ((run ts h).snapshot_qty ≤ max_snapshots)
      × (length (run ts h).files + h.snapshot_qty ≤ length h.files + (run ts h).snapshot_qty)
run_bounds [] h b = (b, omega arith)
run_bounds (t ∷ ts) h b =
    let (c, d) = check_heap_bounds t h b in
    let (e, f) = run_bounds ts (check_heap t h) c in (e, omega (arith, d, f))

length-keep : (p : String → Bool) (fs : List String) → length (keep p fs) ≤ length fs
length-keep p [] = omega arith
length-keep p (f ∷ fs) = ground (arith, length-keep p fs)

-- However long the process runs and however large its heap is, it writes two snapshots at most.
-- The condition is that it has written none before.
few_snapshots :
    (ends_with : String → String → Bool) (ticks : List Tick) (h : Heap)
    → h.snapshot_qty ≡ 0
    → ((monitor ends_with ticks h).snapshot_qty ≤ 2)
      × (length (monitor ends_with ticks h).files ≤ length h.files + 2)
unfolding monitor clear_heapsnapshots
few_snapshots ends_with ticks h z =
    let cleared : Heap = record h {
      files = keep (λ f. not (ends_with f ".heapsnapshot")) h.files;
    } in
    let (b, d) = run_bounds ticks cleared (omega (arith, z)) in
    (b, omega (arith, z, d, b, length-keep (λ f. not (ends_with f ".heapsnapshot")) h.files))
