-- ===== src/Cache/Worker/Pass/Fetched.antt =====
-- A pass in which no chunk ends early fetches every byte of its window.
use rd_rs.Prelude.{ℕ, ◌≤◌, ◌<◌, ◌≡◌, true, false, [], arith}
use rd_rs.Cache.ByteRanges.Coverage.{covers_list, covers}
use rd_rs.Cache.RangeDb.{Table}
use rd_rs.Cache.Item.{Item}
use rd_rs.Cache.Item.Integrity.{Holds, IsGenuine}
use rd_rs.Cache.Worker.{target_end}
use rd_rs.Cache.Worker.Slices.{slices_to_fetch-covers, slices_to_fetch-AllNonempty}
use rd_rs.Cache.Worker.Chunks.{IsPool}
use rd_rs.Cache.Worker.Pass.{Pass, begin_pass, Steps, none_yet, one_more}
use rd_rs.Cache.Worker.Pass.Account.{pending, AllPlaced, IsSound}
use rd_rs.Cache.Worker.Pass.Soundness.{Step-IsSound}

begin_pass-IsSound :
    (remote : ℕ → ℕ) (item : Item) (table : Table) (start end read_ahead : ℕ)
    → IsGenuine remote item
    → IsSound remote start
        (target_end end read_ahead item.file_size)
        (begin_pass item table start end read_ahead)
unfolding pending AllPlaced
begin_pass-IsSound remote item table start end read_ahead g = record {
  genuine = g;
  pool = record {
    slices =
        slices_to_fetch-AllNonempty item.ranges start (target_end end read_ahead item.file_size)
          g.normal;
    at_least_one = omega arith;
    at_most_16 = omega arith;
  };
  placed = tt;
  account = λ x. ground (
    arith,
    slices_to_fetch-covers item.ranges start (target_end end read_ahead item.file_size) x g.normal,
  );
}

Steps-IsSound :
    (remote : ℕ → ℕ) (base_chunk start target : ℕ) (p q : Pass)
    → 0 < base_chunk
    → Steps remote base_chunk p q
    → IsSound remote start target p
    → IsSound remote start target q
Steps-IsSound remote base_chunk start target p _ pos none_yet w = w
Steps-IsSound remote base_chunk start target p _ pos (one_more q r before step) w =
    Step-IsSound remote base_chunk start target pos q r step
      (Steps-IsSound remote base_chunk start target p q pos before w)

-- Whatever the workers of a pass do, in whatever order, and whether or not the answers that they
-- get have a Content-Range, every byte that the item then counts as present is the remote file's,
-- if that held before, and the queue stays well formed. The base chunk has at least one byte.
pub pass-IsGenuine :
    (remote : ℕ → ℕ) (base_chunk : ℕ) (item : Item) (table : Table) (start end read_ahead : ℕ)
    (p : Pass)
    → 0 < base_chunk
    → IsGenuine remote item
    → Steps remote base_chunk (begin_pass item table start end read_ahead) p
    → IsGenuine remote p.item × IsPool p.pool
pass-IsGenuine remote base_chunk item table start end read_ahead p pos g steps =
    let w =
      Steps-IsSound remote base_chunk start (target_end end read_ahead item.file_size) _ p pos steps
        (begin_pass-IsSound remote item table start end read_ahead g) in
    (w.genuine, w.pool)

-- When the queue of a pass is empty and no chunk is in flight, and no worker gave a chunk up, was
-- cancelled, or saw a body end before its chunk's end, then every byte of the pass's window is
-- present: the item holds it, and it is the remote file's. The base chunk has at least one byte,
-- and what the item counted as present before was the remote file's.
pub pass-covers :
    (remote : ℕ → ℕ) (base_chunk : ℕ) (item : Item) (table : Table) (start end read_ahead x : ℕ)
    (p : Pass)
    → 0 < base_chunk
    → IsGenuine remote item
    → Steps remote base_chunk (begin_pass item table start end read_ahead) p
    → p.pool.queue ≡ []
    → p.in_flight ≡ []
    → p.lost ≡ false
    → start ≤ x
    → x < target_end end read_ahead item.file_size
    → (covers p.item.ranges x ≡ true) × Holds remote p.item.disk x
unfolding pending covers_list
pass-covers remote base_chunk item table start end read_ahead x p pos g steps empty landed kept le
      lt =
    let target = target_end end read_ahead item.file_size in
    let w =
      Steps-IsSound remote base_chunk start target _ p pos steps
        (begin_pass-IsSound remote item table start end read_ahead g) in
    let here : covers p.item.ranges x ≡ true = ground (arith, w.account x, empty, landed, kept) in
    (here, w.genuine.bytes x here)
