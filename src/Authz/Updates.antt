-- ===== src/Authz/Updates.antt =====
-- The UPDATE of one row by `consumeChallenge` of apps/authz/src/repo.ts, and the slots of the table.
use combo.Prelude.{
  ltb, ◌==◌, if◌then◌else◌, ==_refl, Bool-cases, ℕ, ◌≡◌, refl, sym, ap, subst, ◌≢◌, ◌⊎◌, inl, inr,
  true, false, ◌&&◌, none, some, List, [], ◌∷◌, arith,
}
use combo.Authz.Challenge.{Challenge, is_open, find_open, update_challenge}
use combo.Authz.Codes.{is_open_target}
use combo.Authz.Slots.{pending_of, slot, NoneOpen, IsFresh, IsValid}

is_open_other : (t u : ℕ) (c : Challenge) → is_open t c ≡ true → t ≢ u → is_open u c ≡ false
unfolding is_open
is_open_other t u c h n = ground arith

NoneOpen-slot : (t : ℕ) (cs : List Challenge) → NoneOpen t cs → slot t cs ≡ none
unfolding slot
NoneOpen-slot t [] n = refl
NoneOpen-slot t (c ∷ cs) (n, ns) = rw (n, NoneOpen-slot t cs ns) refl

NoneOpen-find_open : (now t : ℕ) (cs : List Challenge) → NoneOpen t cs → find_open now t cs ≡ none
unfolding find_open
NoneOpen-find_open now t [] n = refl
NoneOpen-find_open now t (c ∷ cs) (n, ns) = rw (n, NoneOpen-find_open now t cs ns) refl

update_challenge-IsFresh_same :
    (i : ℕ) (f : Challenge → Challenge) (cs : List Challenge)
    → IsFresh i cs
    → update_challenge i f cs ≡ cs
unfolding update_challenge
update_challenge-IsFresh_same i f [] h = refl
update_challenge-IsFresh_same i f (c ∷ cs) (h, hs) =
    rw (h, update_challenge-IsFresh_same i f cs hs) refl

pub find_open-is_open :
    (now t : ℕ) (cs : List Challenge) (c : Challenge)
    → find_open now t cs ≡ some c
    → is_open t c ≡ true
unfolding find_open
find_open-is_open now t [] c e = cc
find_open-is_open now t (d ∷ cs) c e = elim (Bool-cases (is_open t d && ltb now d.expires_at)) [
  | inl h ↦
      let same : d ≡ c = ground arith in
      let opened : is_open t d ≡ true = ground arith in subst (λ x. is_open t x ≡ true) same opened
  | inr h ↦ find_open-is_open now t cs c (ground arith)
]

find_open-IsFresh :
    (now t i : ℕ) (cs : List Challenge) (c : Challenge)
    → find_open now t cs ≡ some c
    → IsFresh i cs
    → (i == c.id) ≡ false
unfolding find_open
find_open-IsFresh now t i [] c e f = cc
find_open-IsFresh now t i (d ∷ cs) c e (f, fs) =
    elim (Bool-cases (is_open t d && ltb now d.expires_at)) [
      | inl h ↦
          let same : d ≡ c = ground arith in subst (λ x. (i == x.id) ≡ false) same (ground arith)
      | inr h ↦ find_open-IsFresh now t i cs c (ground arith) fs
    ]

find_open_absurd :
    (now t : ℕ) (cs : List Challenge) (c : Challenge)
    → find_open now t cs ≡ some c
    → NoneOpen t cs
    → ⊥
find_open_absurd now t cs c e n = let same = NoneOpen-find_open now t cs n in absurd cc

-- The one open row of the first row's target.
head_alone :
    (t : ℕ) (d : Challenge) (cs : List Challenge)
    → IsValid (d ∷ cs)
    → is_open t d ≡ true
    → NoneOpen t cs
head_alone t d cs (f, o, v) h =
    let same = is_open_target t d h in
    subst (λ x. NoneOpen x cs) same (o (subst (λ x. is_open x d ≡ true) (sym same) h))

-- The row that is found is the first, which is its target's only open row, or it is found in the rest,
-- where its id is another one.
find_open-∷ :
    (now t : ℕ) (c d : Challenge) (cs : List Challenge)
    → find_open now t (d ∷ cs) ≡ some c
    → IsValid (d ∷ cs)
    → ((d ≡ c) × (is_open t d ≡ true) × (ltb now d.expires_at ≡ true) × NoneOpen t cs)
      ⊎ ((find_open now t cs ≡ some c) × ((d.id == c.id) ≡ false) × (is_open t d ≡ false))
unfolding find_open
find_open-∷ now t c d cs e v = elim (Bool-cases (is_open t d)) [
  | inl h ↦ elim (Bool-cases (ltb now d.expires_at)) [
    | inl l ↦ inl (ground arith, h, l, head_alone t d cs v h)
    | inr l ↦ absurd (find_open_absurd now t cs c (ground arith) (head_alone t d cs v h))
  ]
  | inr h ↦
      let later : find_open now t cs ≡ some c = ground arith in
      inr (later, find_open-IsFresh now t d.id cs c later v.0, h)
]

pub find_open-slot :
    (now t : ℕ) (cs : List Challenge) (c : Challenge)
    → find_open now t cs ≡ some c
    → IsValid cs
    → (slot t cs ≡ some (pending_of c)) × (ltb now c.expires_at ≡ true)
unfolding slot find_open
find_open-slot now t [] c e v = absurd cc
find_open-slot now t (d ∷ cs) c e v = elim (find_open-∷ now t c d cs e v) [
  | inl (same, h, l, n) ↦
      (rw h (ap (λ x. some (pending_of x)) same), subst (λ x. ltb now x.expires_at ≡ true) same l)
  | inr (later, other, h) ↦ rw h (find_open-slot now t cs c later v.2)
]

-- An update that keeps a row's id and target.
module _ (f : Challenge → Challenge) (keeps_id : (c : Challenge) → (f c).id ≡ c.id)
    (keeps_target : (c : Challenge) → (f c).target_digest ≡ c.target_digest) where
  pub update_challenge-IsFresh :
      (i j : ℕ) (cs : List Challenge) → IsFresh i cs → IsFresh i (update_challenge j f cs)
  unfolding update_challenge
  update_challenge-IsFresh i j [] h = tt
  update_challenge-IsFresh i j (c ∷ cs) (h, hs) = elim (Bool-cases (c.id == j)) [
    | inl e ↦
        rw e
          (subst (λ x. (x == i) ≡ false) (sym (keeps_id c)) h, update_challenge-IsFresh i j cs hs)
    | inr e ↦ rw e (h, update_challenge-IsFresh i j cs hs)
  ]

  updated_other : (t u : ℕ) (c : Challenge) → is_open t c ≡ true → t ≢ u → is_open u (f c) ≡ false
  unfolding is_open
  updated_other t u c h n = ground (arith, keeps_target c)

  update_challenge_first :
      (c d : Challenge) (cs : List Challenge)
      → d ≡ c
      → IsFresh d.id cs
      → update_challenge c.id f (d ∷ cs) ≡ f d ∷ cs
  unfolding update_challenge
  update_challenge_first c d cs same h =
      let here : (d.id == c.id) ≡ true = subst (λ x. (d.id == x.id) ≡ true) same (==_refl d.id) in
      let fresh = subst (λ x. IsFresh x.id cs) same h in
      rw (here, update_challenge-IsFresh_same c.id f cs fresh) refl

  update_challenge_later :
      (i : ℕ) (d : Challenge) (cs : List Challenge)
      → (d.id == i) ≡ false
      → update_challenge i f (d ∷ cs) ≡ d ∷ update_challenge i f cs
  unfolding update_challenge
  update_challenge_later i d cs e = rw e refl

  slot-update_challenge :
      (now t : ℕ) (c : Challenge) (cs : List Challenge)
      → find_open now t cs ≡ some c
      → IsValid cs
      → slot t (update_challenge c.id f cs)
        ≡ (if is_open t (f c) then some (pending_of (f c)) else none)
  unfolding slot
  slot-update_challenge now t c [] e v = absurd (find_open_absurd now t [] c e tt)
  slot-update_challenge now t c (d ∷ cs) e v = elim (find_open-∷ now t c d cs e v) [
    | inl (same, h, l, n) ↦
        rw (update_challenge_first c d cs same v.0, NoneOpen-slot t cs n)
          (ap (λ x. if is_open t (f x) then some (pending_of (f x)) else none) same)
    | inr (later, other, h) ↦
        rw (update_challenge_later c.id d cs other, h) (slot-update_challenge now t c cs later v.2)
  ]

  slot-update_challenge_other :
      (now t u : ℕ) (c : Challenge) (cs : List Challenge)
      → find_open now t cs ≡ some c
      → IsValid cs
      → t ≢ u
      → slot u (update_challenge c.id f cs) ≡ slot u cs
  unfolding slot
  slot-update_challenge_other now t u c [] e v n = absurd (find_open_absurd now t [] c e tt)
  slot-update_challenge_other now t u c (d ∷ cs) e v n = elim (find_open-∷ now t c d cs e v) [
    | inl (same, h, _, _) ↦
        rw
          (update_challenge_first c d cs same v.0, updated_other t u d h n, is_open_other t u d h n)
          refl
    | inr (later, other, h) ↦
        rw
          (
            update_challenge_later c.id d cs other,
            slot-update_challenge_other now t u c cs later v.2 n,
          )
          refl
  ]

  update_challenge-NoneOpen :
      (now t u : ℕ) (c : Challenge) (cs : List Challenge)
      → find_open now t cs ≡ some c
      → IsValid cs
      → NoneOpen u cs
      → NoneOpen u (update_challenge c.id f cs)
  unfolding update_challenge
  update_challenge-NoneOpen now t u c [] e v n = tt
  update_challenge-NoneOpen now t u c (d ∷ cs) e v (n, ns) = elim (find_open-∷ now t c d cs e v) [
    | inl (same, h, _, _) ↦
        let apart : t ≢ u = λ q. absurd (ground (arith, subst (λ x. is_open x d ≡ true) q h)) in
        subst (λ x. NoneOpen u x) (sym (update_challenge_first c d cs same v.0))
          (updated_other t u d h apart, ns)
    | inr (later, other, h) ↦ rw other (n, update_challenge-NoneOpen now t u c cs later v.2 ns)
  ]

  update_challenge-IsValid :
      (now t : ℕ) (c : Challenge) (cs : List Challenge)
      → find_open now t cs ≡ some c
      → IsValid cs
      → IsValid (update_challenge c.id f cs)
  unfolding update_challenge
  update_challenge-IsValid now t c [] e v = tt
  update_challenge-IsValid now t c (d ∷ cs) e v = elim (find_open-∷ now t c d cs e v) [
    | inl (same, h, _, n) ↦
        let alone = subst (λ x. NoneOpen x cs) (sym (is_open_target t d h)) n in
        subst (λ x. IsValid x) (sym (update_challenge_first c d cs same v.0))
          (
            subst (λ i. IsFresh i cs) (sym (keeps_id d)) v.0,
            λ _. subst (λ x. NoneOpen x cs) (sym (keeps_target d)) alone,
            v.2,
          )
    | inr (later, other, h) ↦ rw other (
      update_challenge-IsFresh d.id c.id cs v.0,
      λ o. update_challenge-NoneOpen now t d.target_digest c cs later v.2 (v.1 o),
      update_challenge-IsValid now t c cs later v.2,
    )
  ]

  pub update_challenge_slots :
      (now t : ℕ) (c : Challenge) (cs : List Challenge)
      → find_open now t cs ≡ some c
      → IsValid cs
      → IsValid (update_challenge c.id f cs)
        × (slot t (update_challenge c.id f cs)
            ≡ (if is_open t (f c) then some (pending_of (f c)) else none))
        × ((u : ℕ) → t ≢ u → slot u (update_challenge c.id f cs) ≡ slot u cs)
  update_challenge_slots now t c cs e v = (
    update_challenge-IsValid now t c cs e v,
    slot-update_challenge now t c cs e v,
    λ u. slot-update_challenge_other now t u c cs e v,
  )
