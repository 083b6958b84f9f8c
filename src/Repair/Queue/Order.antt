-- ===== src/Repair/Queue/Order.antt =====
-- No torrent stands twice in the queue, and what is enqueued is in it.
use rd_rs.Prelude.{
  ◌≡◌, refl, sym, ap, ◌∙◌, ◌⊎◌, inl, inr, Bool, true, false, not, ◌||◌, ◌&&◌, List, [], ◌∷◌, ◌++◌,
  String, arith, Bool-cases, or_false,
}
use rd_rs.Prelude.Map.{◌=?◌, =?_refl, contains, contains-append, contains-push, string_keys}
use rd_rs.Repair.Queue.{enqueue_repair, enqueue_repair_all, remove_first, enqueue_repair_front}

-- No key stands twice.
unfoldable pub Once : List String → Type 0
Once [] = Unit {0}
Once (k ∷ q) = (contains q k ≡ false) × Once q

Once-push :
    (q : List String) (key : String) → Once q → contains q key ≡ false → Once (q ++ (key ∷ []))
unfolding Once contains
Once-push [] key o h = (refl, tt)
Once-push (k ∷ q) key o h = (
  ground (
    arith,
    contains-append q (key ∷ []) k,
    o.0,
    (string_keys).beq_iff k key,
    (string_keys).beq_iff key k,
  ),
  Once-push q key o.1 (ground arith),
)

-- What a queue is after one key was enqueued: no key stands twice, the key is there, and the other
-- keys are those that were there.
unfoldable pub Enqueued : String → String → List String → List String → Type 0
Enqueued key other q q' =
    Once q' × (contains q' key ≡ true) × ((other ≡ key) ⊎ (contains q' other ≡ contains q other))

enqueue_repair-Enqueued :
    (key other : String) (q : List String) → Once q → Enqueued key other q (enqueue_repair key q)
unfolding enqueue_repair Enqueued contains
enqueue_repair-Enqueued key other q o = elim (Bool-cases (contains q key)) [
  | inl there ↦ rw there (o, there, inr refl)
  | inr missing ↦ rw missing (
    Once-push q key o missing,
    contains-append q (key ∷ []) key ∙ ground (arith, =?_refl key),
    elim (Bool-cases (key =? other)) [
      | inl same ↦ inl (sym (((string_keys).beq_iff key other).0 same))
      | inr differs ↦
          inr (contains-append q (key ∷ []) other ∙ rw differs (or_false (contains q other)))
    ],
  )
]

contains-remove_first :
    (key other : String) (q : List String)
    → Once q
    → contains (remove_first key q) other ≡ (not (key =? other) && contains q other)
unfolding remove_first contains Once
contains-remove_first key other [] o = ground arith
contains-remove_first key other (k ∷ q) o = ground (
  arith,
  contains-remove_first key other q o.1,
  o.0,
  (string_keys).beq_iff k key,
  (string_keys).beq_iff k other,
  (string_keys).beq_iff key other,
)

Once-remove_first : (key : String) (q : List String) → Once q → Once (remove_first key q)
unfolding remove_first Once
Once-remove_first key [] o = tt
Once-remove_first key (k ∷ q) o = elim (Bool-cases (k =? key)) [
  | inl same ↦ rw same o.1
  | inr differs ↦
      rw differs
        (contains-remove_first key k q o.1 ∙ ground (arith, o.0), Once-remove_first key q o.1)
]

-- Putting a key at the front of the queue, as a forced repair does, and putting it at the end, if
-- it is not there: in either case no key stands twice if none did before, the key is in the queue,
-- and another key is in it just when it was.
pub enqueue-Enqueued :
    (key other : String) (q : List String)
    → Once q
    → Enqueued key other q (enqueue_repair key q)
      × Enqueued key other q (enqueue_repair_front key q)
unfolding enqueue_repair_front Enqueued contains Once
enqueue-Enqueued key other q o = (
  enqueue_repair-Enqueued key other q o,
  (
    (contains-remove_first key key q o ∙ rw (=?_refl key) refl, Once-remove_first key q o),
    rw (=?_refl key) refl,
    elim (Bool-cases (key =? other)) [
      | inl same ↦ inl (sym (((string_keys).beq_iff key other).0 same))
      | inr differs ↦ inr (rw differs (contains-remove_first key other q o ∙ rw differs refl))
    ],
  ),
)

pub contains-enqueue_repair :
    (key x : String) (q : List String)
    → contains (enqueue_repair key q) x ≡ (contains q x || (key =? x))
unfolding enqueue_repair
contains-enqueue_repair key x q = contains-push q key x

-- Enqueuing all torrents, or all that are eligible for a periodic repair, keeps every key at most
-- once in the queue; in it are then exactly the keys that were there, and those of the torrents
-- that are to be repaired.
pub enqueue_repair_all-contains :
    (all : Bool) (eligible : String → Bool) (keys q : List String) (x : String)
    → Once q
    → Once (enqueue_repair_all all eligible keys q)
      × (contains (enqueue_repair_all all eligible keys q) x
          ≡ (contains q x || (contains keys x && (all || eligible x))))
unfolding enqueue_repair_all contains Enqueued
enqueue_repair_all-contains all eligible [] q x o = (o, sym (or_false (contains q x)))
enqueue_repair_all-contains all eligible (key ∷ keys) q x o =
    elim (Bool-cases (not all && not (eligible key))) [
      | inl skipped ↦
          let rest = enqueue_repair_all-contains all eligible keys q x o in
          elim (Bool-cases (key =? x)) [
            | inl same ↦
                let at_x = ap eligible (((string_keys).beq_iff key x).0 same) in
                rw (skipped, same) (rest.0, rest.1 ∙ ground (arith, at_x))
            | inr differs ↦ rw (skipped, differs) rest
          ]
      | inr taken ↦
          let e = enqueue_repair-Enqueued key x q o in
          let rest = enqueue_repair_all-contains all eligible keys (enqueue_repair key q) x e.0 in
          elim (Bool-cases (key =? x)) [
            | inl same ↦
                let at_x = ap eligible (((string_keys).beq_iff key x).0 same) in
                rw (taken, same)
                  (rest.0, rest.1 ∙ ground (arith, contains-enqueue_repair key x q, at_x, same))
            | inr differs ↦
                rw (taken, differs)
                  (rest.0, rest.1 ∙ ground (arith, contains-enqueue_repair key x q, differs))
          ]
    ]
