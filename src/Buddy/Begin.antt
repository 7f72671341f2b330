-- ===== src/Buddy/Begin.antt =====
-- kernel/mm/buddy.c: the allocator as `allocator_init` leaves it.
use native.Mathlib.Nat.{zero-div}
use lasagne.Base.{
  ℕ, zero, suc, ◌+◌, ◌/◌, ◌%◌, ◌^◌, ◌≤◌, ◌<◌, ◌≡◌, ◌≢◌, ◌⊎◌, refl, ◌∙◌, ap, inl, inr, arith, false,
  some, List, [], ◌∷◌, get_or, replicate, ◌==◌, Bool-cases,
}
use lasagne.Util.Bitmap.{get_bit}
use lasagne.Buddy.{
  Allocator, Heap, update, unique_index, size_from_level, init, bitmaps_size, null, Node,
}
use lasagne.Buddy.Coalesce.{IsConsistent}
use lasagne.Buddy.Allocate.{initial, init_lem, initial-room}

-- The whole memory is the one free block.
abbrev pub whole_memory : ℕ → ℕ → List ℕ
whole_memory memory = update (λ l. []) 0 (memory ∷ [])

get_or-replicate : (n i : ℕ) → ◌≡◌ {A = ℕ} (get_or (replicate n 0) i 0) 0
get_or-replicate zero i = refl
get_or-replicate (suc n) zero = refl
get_or-replicate (suc n) (suc i) = get_or-replicate n i

get_bit-replicate : (n i : ℕ) → get_bit (replicate n 0) i ≡ 0
unfolding get_bit
get_bit-replicate n i = rw (get_or-replicate n (i / 8), zero-div (2 ^ (i % 8))) refl

pub initial-IsConsistent :
    (memory leaf m bitmaps : ℕ) (heap : Heap)
    → m ≤ 30
    → 0 < memory
    → memory + 2 ^ (m + leaf) ≤ 2 ^ 64
    → heap memory ≡ record { prev = 0; next = 0 }
    → IsConsistent
        (record { alloc = initial memory leaf m bitmaps; heap = heap })
        (whole_memory memory)
        leaf
unfolding size_from_level
initial-IsConsistent memory leaf m bitmaps heap narrow used inside node = record {
  geometry = record { leaves = refl; whole = refl; inside = inside; narrow = narrow };
  has_lists = record {
    list = λ l. elim (Bool-cases (l == 0)) [
      | inl e ↦ rw e (record {
        linked = (
          refl,
          (λ z. absurd (omega (arith, z, used))),
          ap (λ (n : Node). n.prev) node,
          ap (λ (n : Node). n.next) node,
        );
        distinct = (refl, tt);
      })
      | inr e ↦ rw e (record { linked = refl; distinct = tt })
    ];
    count = λ l. ground arith;
    apart = λ l n b ne h. ground arith;
  };
  pairs = record {
    narrow = narrow;
    room = λ l j hl hj. initial-room m l j narrow hl hj;
    bits = λ l j hl hj.
        get_bit-replicate _ (unique_index l j)
        ∙ (let z : (suc l == 0) ≡ false = ground arith in rw z refl);
  };
}

-- An allocator over at least two and at most `2 ^ 30` leaves of a power of two bytes, at an address other than 0 and within
-- the address space, with bitmaps given outside of that memory, is in order when `allocator_init` leaves it, if the first words of the memory read as 0: its one free block is the
-- whole memory, and lists, bits and sizes agree.
pub init-IsConsistent :
    (memory leaf m bitmaps : ℕ) (heap : Heap)
    → 0 < m
    → m ≤ 30
    → m + leaf < 64
    → 0 < memory
    → bitmaps ≢ null
    → (bitmaps + bitmaps_size (2 ^ (m + leaf)) (2 ^ leaf) ≤ memory)
      ⊎ (memory + 2 ^ (m + leaf) ≤ bitmaps)
    → memory + 2 ^ (m + leaf) ≤ 2 ^ 64
    → heap memory ≡ record { prev = 0; next = 0 }
    → (a : Allocator) × (init memory (2 ^ (m + leaf)) (2 ^ leaf) bitmaps ≡ some a)
      × IsConsistent (record { alloc = a; heap = heap }) (whole_memory memory) leaf
      × (a.free_size ≡ 2 ^ (m + leaf))
      × (a.bitmaps ≡ bitmaps)
init-IsConsistent memory leaf m bitmaps heap pos narrow small used given apart inside node = (
  initial memory leaf m bitmaps,
  let z : (bitmaps == null) ≡ false = ground (arith, given) in
      init_lem memory leaf m bitmaps narrow small ∙ rw z refl,
  initial-IsConsistent memory leaf m bitmaps heap narrow used inside node,
  refl,
  refl,
)
