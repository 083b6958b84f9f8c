-- ===== src/Cache/Worker/Pass/Account.antt =====
-- Which bytes of its window a pass still accounts for.
use rd_rs.Prelude.{
  ℕ, ◌≤◌, ◌<◌, ◌≡◌, refl, Bool, true, false, not, ◌||◌, Option, none, some, List, [], ◌∷◌, ◌++◌,
  arith,
}
use rd_rs.Cache.ByteRanges.Coverage.{in_range, covers_list, covers}
use rd_rs.Cache.Item.Integrity.{IsGenuine}
use rd_rs.Cache.Worker.Chunks.{IsPool}
use rd_rs.Cache.Worker.Pass.{Stream, Chunk, Pass}

-- The first byte of the chunk that is still to come: without a body, all of it is.
abbrev pub next_of : ℕ → Option Stream → ℕ
next_of chunk_start none = chunk_start
next_of chunk_start (some b) = b.current_pos

abbrev pub next_byte : Chunk → ℕ
next_byte c = next_of c.chunk_start c.stream

-- The byte is still to come in one of the chunks.
unfoldable pub pending : List Chunk → ℕ → Bool
pending [] x = false
pending (c ∷ cs) x = in_range (next_byte c) c.chunk_end x || pending cs x

pub pending-append :
    (xs ys : List Chunk) (x : ℕ) → pending (xs ++ ys) x ≡ (pending xs x || pending ys x)
unfolding pending
pending-append [] ys x = refl
pending-append (c ∷ xs) ys x = ground (arith, pending-append xs ys x)

-- What the body gives next is to be written at its own place, not before the chunk's start.
abbrev pub IsAligned : ℕ → Option Stream → Type 0
IsAligned chunk_start none = Unit {0}
IsAligned chunk_start (some b) = (chunk_start ≤ b.current_pos) × (b.body ≡ b.current_pos)

pub record IsPlaced (c : Chunk) : Type 0 where
  pub nonempty : c.chunk_start < c.chunk_end
  pub aligned : IsAligned c.chunk_start c.stream

pub next_byte_from : (s : ℕ) (o : Option Stream) → IsAligned s o → s ≤ next_of s o
next_byte_from s none h = omega arith
next_byte_from s (some b) h = h.0

unfoldable pub AllPlaced : List Chunk → Type 0
AllPlaced [] = Unit {0}
AllPlaced (c ∷ cs) = IsPlaced c × AllPlaced cs

pub AllPlaced-middle : (xs ys : List Chunk) (c : Chunk) → AllPlaced (xs ++ (c ∷ ys)) → IsPlaced c
unfolding AllPlaced
AllPlaced-middle [] ys c a = a.0
AllPlaced-middle (x ∷ xs) ys c a = AllPlaced-middle xs ys c a.1

pub AllPlaced-without :
    (xs ys : List Chunk) (c : Chunk) → AllPlaced (xs ++ (c ∷ ys)) → AllPlaced (xs ++ ys)
unfolding AllPlaced
AllPlaced-without [] ys c a = a.1
AllPlaced-without (x ∷ xs) ys c a = (a.0, AllPlaced-without xs ys c a.1)

pub AllPlaced-with :
    (xs ys : List Chunk) (c c' : Chunk)
    → AllPlaced (xs ++ (c ∷ ys))
    → IsPlaced c'
    → AllPlaced (xs ++ (c' ∷ ys))
unfolding AllPlaced
AllPlaced-with [] ys c c' a placed = (placed, a.1)
AllPlaced-with (x ∷ xs) ys c c' a placed = (a.0, AllPlaced-with xs ys c c' a.1 placed)

-- A byte of the window is present, or waits in the queue, or is still to come in a chunk, unless
-- bytes were lost.
abbrev pub account_of : Bool → Bool → Bool → Bool → Bool → Bool
account_of window lost present queued coming =
    not window || (lost || (present || (queued || coming)))

abbrev pub accounted : ℕ → ℕ → Pass → ℕ → Bool
accounted start target p x =
    account_of (in_range start target x) p.lost (covers p.item.ranges x)
      (covers_list p.pool.queue x) (pending p.in_flight x)

pub record IsSound (remote : ℕ → ℕ) (start target : ℕ) (p : Pass) : Type 0 where
  pub genuine : IsGenuine remote p.item
  pub pool : IsPool p.pool
  pub placed : AllPlaced p.in_flight
  pub account : (x : ℕ) → accounted start target p x ≡ true
