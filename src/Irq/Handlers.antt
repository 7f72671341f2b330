-- ===== src/Irq/Handlers.antt =====
-- The tables of kernel/arch/x64/irq.c after its initialization.
use lasagne.Base.{
  ℕ, zero, suc, ◌+◌, ◌<◌, ◌≡◌, ◌≢◌, refl, sym, ◌∙◌, ap, inl, inr, ◌⊎◌, arith, Bool, true, false,
  bit_and, ◌&&◌, ◌==◌, ltb, leb, if◌then◌else◌, Bool-cases,
}
use lasagne.Irq.{
  IdtEntry, Irq, compile_idt, vectors, errorcode, user, set_at, model_of, create_idt,
  set_irq_handler, set_range, set_handlers, initialize_tables,
}

abbrev inside : (first count j : ℕ) → Bool
inside first count j = leb first j && ltb j (first + count)

create_idt_lem :
    (w i count : ℕ) (idt : ℕ → IdtEntry) (j : ℕ)
    → create_idt w i count idt j ≡ (if inside i count j then compile_idt (model_of w j) else idt j)
unfolding create_idt
create_idt_lem w i zero idt j = let e : inside i 0 j ≡ false = ground arith in rw e refl
create_idt_lem w i (suc count) idt j =
    create_idt_lem w (i + 1) count (set_at i (compile_idt (model_of w i)) idt) j
    ∙ elim (Bool-cases (j == i)) [
      | inl q ↦
          let p : j ≡ i = ground arith in
          let e : inside (i + 1) count j ≡ false = ground arith in
          let d : inside i (suc count) j ≡ true = ground arith in rw (e, d, q, p) refl
      | inr q ↦
          let e : inside (i + 1) count j ≡ inside i (suc count) j = ground arith in rw (e, q) refl
    ]

-- What `set_irq_handler` makes of a descriptor.
abbrev pub enabled : (flags : ℕ) → IdtEntry → IdtEntry
enabled flags e = record e { present = 1; dpl = if bit_and flags user == 0 then 0 else 3 }

range_step {ℓ} :
    {A : Type ℓ} (f : A → A) (old : ℕ → A) (first count j : ℕ)
    → (if inside (first + 1) count j
        then f (set_at first (f (old first)) old j)
        else set_at first (f (old first)) old j)
      ≡ (if inside first (suc count) j then f (old j) else old j)
range_step f old first count j = elim (Bool-cases (j == first)) [
  | inl q ↦
      let p : j ≡ first = ground arith in
      let e : inside (first + 1) count j ≡ false = ground arith in
      let d : inside first (suc count) j ≡ true = ground arith in
      rw (e, d, q) (ap (λ k. f (old k)) (sym p))
  | inr q ↦
      let e : inside (first + 1) count j ≡ inside first (suc count) j = ground arith in
      rw (e, q) refl
]

set_range_lem :
    (first count address flags : ℕ) (s : Irq) (j : ℕ)
    → ((set_range first count address flags s).idt j
        ≡ (if inside first count j then enabled flags (s.idt j) else s.idt j))
      × ((set_range first count address flags s).idt_handler j ≡ (
          if inside first count j
          then record { address = address; flags = flags }
          else s.idt_handler j))
unfolding set_range set_irq_handler
set_range_lem first zero address flags s j =
    let e : inside first 0 j ≡ false = ground arith in rw e (refl, refl)
set_range_lem first (suc count) address flags s j =
    let (a, b) =
      set_range_lem (first + 1) count address flags (set_irq_handler first address flags s) j in
    (
      a ∙ range_step (enabled flags) s.idt first count j,
      b ∙ range_step (λ h. record { address = address; flags = flags }) s.idt_handler first count j,
    )

-- The vectors that get a handler, and the handler's flags.
abbrev pub handled : ℕ → Bool
handled i = if i == 15 then false else true

abbrev pub flags_of : ℕ → ℕ
flags_of i = if leb 8 i && leb i 14 then errorcode else 0

-- The three loops of `set_handlers`.
three_ranges : (generic : ℕ) → Irq → Irq
three_ranges generic s =
    set_range 16 64 generic 0 (set_range 8 7 generic errorcode (set_range 0 8 generic 0 s))

-- Which loop reaches the vector.
Region : (first second third : Bool) (i flags : ℕ) → Type 0
Region first second third i flags =
    (inside 0 8 i ≡ first)
    × (inside 8 7 i ≡ second)
    × (inside 16 64 i ≡ third)
    × (handled i ≡ true)
    × (flags_of i ≡ flags)

Unreached : ℕ → Type 0
Unreached i =
    (inside 0 8 i ≡ false)
    × (inside 8 7 i ≡ false)
    × (inside 16 64 i ≡ false)
    × (handled i ≡ false)
    × (i ≡ 15)

regions :
    (i : ℕ)
    → i < 80
    → Region true false false i 0
      ⊎ (Region false true false i errorcode ⊎ (Region false false true i 0 ⊎ Unreached i))
unfolding Region Unreached
regions i h = elim (Bool-cases (ltb i 8)) [
  | inl a ↦ inl (ground arith, ground arith, ground arith, ground arith, ground arith)
  | inr a ↦ elim (Bool-cases (ltb i 15)) [
    | inl b ↦ inr (inl (ground arith, ground arith, ground arith, ground arith, ground arith))
    | inr b ↦ elim (Bool-cases (i == 15)) [
      | inl c ↦
          inr (inr (inr (ground arith, ground arith, ground arith, ground arith, ground arith)))
      | inr c ↦
          inr (inr (inl (ground arith, ground arith, ground arith, ground arith, ground arith)))
    ]
  ]
]

three_ranges_lem :
    (generic : ℕ) (s : Irq) (i : ℕ)
    → i < 80
    → ((s.idt i).dpl ≡ 0)
    → ((s.idt i).present ≡ 0)
    → ((three_ranges generic s).idt i ≡ record (s.idt i) { present = if handled i then 1 else 0 })
      × (i ≢ 15
          → (three_ranges generic s).idt_handler i
            ≡ record { address = generic; flags = flags_of i })
unfolding three_ranges Region Unreached
three_ranges_lem generic s0 i h dpl present =
    let s1 = set_range 0 8 generic 0 s0 in
    let s2 = set_range 8 7 generic errorcode s1 in
    let (a1, b1) = set_range_lem 0 8 generic 0 s0 i in
    let (a2, b2) = set_range_lem 8 7 generic errorcode s1 i in
    let (a3, b3) = set_range_lem 16 64 generic 0 s2 i in
    rw (a3, a2, a1, b3, b2, b1)
      (elim (regions i h) [
        | inl (p, q, r, t, f) ↦ rw (p, q, r, t, f, dpl) (refl, λ _. refl)
        | inr (inl (p, q, r, t, f)) ↦ rw (p, q, r, t, f, dpl) (refl, λ _. refl)
        | inr (inr (inl (p, q, r, t, f))) ↦ rw (p, q, r, t, f, dpl) (refl, λ _. refl)
        | inr (inr (inr (p, q, r, t, e))) ↦ rw (p, q, r, t, present) (refl, λ ne. absurd (ne e))
      ])

create_idt-built :
    (w : ℕ) (idt : ℕ → IdtEntry) (i : ℕ)
    → i < 80
    → create_idt w 0 vectors idt i ≡ compile_idt (model_of w i)
create_idt-built w idt i h =
    let e : inside 0 vectors i ≡ true = ground arith in create_idt_lem w 0 vectors idt i ∙ rw e refl

built_ranges_lem :
    (w generic : ℕ) (s : Irq) (i : ℕ)
    → i < 80
    → let t = three_ranges generic (record s { idt = create_idt w 0 vectors s.idt }) in
      (t.idt i ≡ record (compile_idt (model_of w i)) { present = if handled i then 1 else 0 })
      × (i ≢ 15 → t.idt_handler i ≡ record { address = generic; flags = flags_of i })
unfolding compile_idt model_of
built_ranges_lem w generic s i h =
    let e = create_idt-built w s.idt i h in
    let (a, b) =
      three_ranges_lem generic (record s { idt = create_idt w 0 vectors s.idt }) i h (rw e refl)
        (rw e refl) in
    (a ∙ rw e refl, b)

-- After `create_idt` and `set_handlers`, the descriptor of every vector below 80 is the one of the
-- vector's wrapper, present but for vector 15. The handler of a present vector is `generic`, with
-- an error code for the vectors 8 to 14 alone, but vector 0x27 has `spurious`.
pub initialize_tables_lem :
    (w generic spurious : ℕ) (s : Irq) (i : ℕ)
    → i < 80
    → let t = initialize_tables w generic spurious s in
      (t.idt i ≡ record (compile_idt (model_of w i)) { present = if handled i then 1 else 0 })
      × (i ≢ 15
          → t.idt_handler i
            ≡ record { address = if i == 0x27 then spurious else generic; flags = flags_of i })
unfolding initialize_tables set_handlers set_irq_handler three_ranges compile_idt model_of
initialize_tables_lem w generic spurious s i h =
    let (a, b) = built_ranges_lem w generic s i h in
    let (c, _) = built_ranges_lem w generic s 0x27 (omega arith) in
    elim (Bool-cases (i == 0x27)) [
      | inl q ↦ let p : i ≡ 0x27 = ground arith in rw (p, c) (refl, λ _. refl)
      | inr q ↦ rw (q, a) (refl, λ ne. rw (b ne) refl)
    ]
