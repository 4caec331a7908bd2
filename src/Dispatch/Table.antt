-- ===== src/Dispatch/Table.antt =====
-- The session table of a connection (gck-rpc-dispatch.c): what the loops over it do to each position.
use pkcs11_proxy.Common.{
  ℕ, ◌≡◌, refl, sym, subst, ap, ap₂, ◌∙◌, ◌≢◌, ◌⊎◌, inl, inr, Bool, true, false, Bool-cases, Option,
  none, some, List, [], ◌∷◌, ◌++◌, ◌==◌, ==_refl, if◌then◌else◌, done, arith,
}
use pkcs11_proxy.Pkcs11.{ckr_ok}
use pkcs11_proxy.Dispatch.{SessionState}
use pkcs11_proxy.Dispatch.Library.{Reply}
use pkcs11_proxy.Dispatch.Sessions.{
  is_free, freed, remember, behind, forget, close_by, close_chosen,
}

-- No position is free.
abbrev pub IsFull : List SessionState → Type 0
IsFull [] = Unit {0}
IsFull (x ∷ xs) = (is_free x ≡ false) × IsFull xs

-- `ys` is `xs` with `new` at the first position that is free.
pub record IsPlaced (new : SessionState) (xs ys : List SessionState) : Type 0 where
  pub before : List SessionState
  pub old : SessionState
  pub after : List SessionState
  pub source : xs ≡ before ++ (old ∷ after)
  pub full : IsFull before
  pub free : is_free old ≡ true
  pub result : ys ≡ before ++ (new ∷ after)

-- What C_OpenSession makes of the table.
abbrev pub Remembers : SessionState → List SessionState → Option (List SessionState) → Type 0
Remembers new xs none = IsFull xs
Remembers new xs (some ys) = IsPlaced new xs ys

behind-Remembers :
    (new x : SessionState) (xs : List SessionState) (r : Option (List SessionState))
    → is_free x ≡ false
    → Remembers new xs r
    → Remembers new (x ∷ xs) (behind x r)
behind-Remembers new x xs none taken p = (taken, p)
behind-Remembers new x xs (some ys) taken p = record {
  before = x ∷ p.before;
  old = p.old;
  after = p.after;
  source = ap (λ l. x ∷ l) p.source;
  full = (taken, p.full);
  free = p.free;
  result = ap (λ l. x ∷ l) p.result;
}

-- A new session takes the first free position of the table, and is turned away exactly where no position
-- is free.
pub remember-Remembers :
    (new : SessionState) (xs : List SessionState) → Remembers new xs (remember new xs)
unfolding remember
remember-Remembers new [] = tt
remember-Remembers new (x ∷ xs) = elim (Bool-cases (is_free x)) [
  | inl free ↦ rw free (record {
    before = [];
    old = x;
    after = xs;
    source = refl;
    full = tt;
    free = free;
    result = refl;
  })
  | inr taken ↦
      rw taken (behind-Remembers new x xs (remember new xs) taken (remember-Remembers new xs))
]

-- No position has the session.
abbrev pub Lacks : ℕ → List SessionState → Type 0
Lacks session [] = Unit {0}
Lacks session (x ∷ xs) = ((x.id == session) ≡ false) × Lacks session xs

abbrev pub ids : List SessionState → List ℕ
ids [] = []
ids (x ∷ xs) = x.id ∷ ids xs

forget-placed :
    (new old : SessionState) (before after : List SessionState)
    → is_free old ≡ true
    → Lacks new.id before
    → ids (forget new.id (before ++ (new ∷ after))) ≡ ids (before ++ (old ∷ after))
unfolding forget
forget-placed new old [] after free lacks =
    let was_free : 0 ≡ old.id = ground arith in
    rw (==_refl new.id) (ap (λ n. n ∷ ids after) was_free)
forget-placed new old (x ∷ before) after free (other, lacks) =
    rw other (ap (λ l. x.id ∷ l) (forget-placed new old before after free lacks))

Lacks-prefix :
    (n : ℕ) (before after : List SessionState) → Lacks n (before ++ after) → Lacks n before
Lacks-prefix n [] after h = tt
Lacks-prefix n (x ∷ before) after (other, h) = (other, Lacks-prefix n before after h)

-- A session that is opened, and closed again, leaves the table's sessions as they were, unless the module
-- gave out a session that was in the table already.
pub forget-remember :
    (new : SessionState) (xs ys : List SessionState)
    → Lacks new.id xs
    → remember new xs ≡ some ys
    → ids (forget new.id ys) ≡ ids xs
forget-remember new xs ys lacks e =
    let p : IsPlaced new xs ys = subst (Remembers new xs) e (remember-Remembers new xs) in
    let absent =
      Lacks-prefix new.id p.before (p.old ∷ p.after) (subst (Lacks new.id) p.source lacks) in
    ap (λ l. ids (forget new.id l)) p.result
    ∙ forget-placed new p.old p.before p.after p.free absent
    ∙ sym (ap ids p.source)

-- Each chosen position is free, the others are as they were.
abbrev pub all_freed : (SessionState → Bool) → List SessionState → List SessionState
all_freed chosen [] = []
all_freed chosen (x ∷ xs) = (if chosen x then freed x else x) ∷ all_freed chosen xs

-- The module is asked, from its state `s` on, to close the chosen sessions one after the other, and answers
-- CKR_OK to each; that leaves it in the last state.
pub data AreClosed {S : Type 0} (close : ℕ → Reply S (Unit {0})) (chosen : SessionState → Bool)
    : List SessionState → S → S → Type 0 where
  no_more : {s : S} → AreClosed close chosen [] s s
  passed_over :
      {x : SessionState} {xs : List SessionState} {s s' : S}
      → chosen x ≡ false
      → AreClosed close chosen xs s s'
      → AreClosed close chosen (x ∷ xs) s s'
  closed_one :
      {x : SessionState} {xs : List SessionState} {s s' : S}
      → chosen x ≡ true
      → (close x.id s).1 ≡ ckr_ok
      → AreClosed close chosen xs (close x.id s).0 s'
      → AreClosed close chosen (x ∷ xs) s s'

module _ {S : Type 0} (close : ℕ → Reply S (Unit {0})) (chosen : SessionState → Bool)
    (forgets : ℕ → Bool) where
  -- The loop gave up: the module has closed the chosen sessions in front of `x`, and then answered to the
  -- closing of `x` with `ret`, which is an error. The chosen positions in front of `x` are free, `x` is if
  -- `ret` says so, and what is behind it was not touched.
  pub record IsCutShort (xs : List SessionState) (s : S) (ys : List SessionState) (s' : S) (ret : ℕ)
      : Type 0 where
    pub before : List SessionState
    pub x : SessionState
    pub after : List SessionState
    pub source : xs ≡ before ++ (x ∷ after)
    pub reached : S
    pub closed : AreClosed close chosen before s reached
    pub picked : chosen x ≡ true
    pub code : (close x.id reached).1 ≡ ret
    pub bad : ret ≢ ckr_ok
    pub state : s' ≡ (close x.id reached).0
    pub result : ys ≡ all_freed chosen before ++ ((if forgets ret then freed x else x) ∷ after)

  abbrev pub Closes : List SessionState → S → List SessionState × S × ℕ → Type 0
  Closes xs s (ys, s', ret) =
      ((ret ≡ ckr_ok) × AreClosed close chosen xs s s' × (ys ≡ all_freed chosen xs))
      ⊎ IsCutShort xs s ys s' ret

  -- One more position in front, which takes the module from `s` to `s1`.
  in_front :
      (x x' : SessionState) (xs : List SessionState) (s s1 : S) (r : List SessionState × S × ℕ)
      → (if chosen x then freed x else x) ≡ x'
      → ((zs : List SessionState) (s2 : S)
          → AreClosed close chosen zs s1 s2
          → AreClosed close chosen (x ∷ zs) s s2)
      → Closes xs s1 r
      → Closes (x ∷ xs) s (x' ∷ r.0, r.1, r.2)
  in_front x x' xs s s1 (ys, s', ret) e more (inl (ok, all, same)) =
      inl (ok, more xs s' all, ap₂ (λ y l. y ∷ l) (sym e) same)
  in_front x x' xs s s1 (ys, s', ret) e more (inr p) = inr (record {
    before = x ∷ p.before;
    x = p.x;
    after = p.after;
    source = ap (λ l. x ∷ l) p.source;
    reached = p.reached;
    closed = more p.before p.reached p.closed;
    picked = p.picked;
    code = p.code;
    bad = p.bad;
    state = p.state;
    result = ap₂ (λ y l. y ∷ l) (sym e) p.result;
  })

  -- The loop over the sessions returns. Where it reports success, the module has closed each chosen session
  -- with CKR_OK, in the order of the table, every chosen position is free, and no other one has changed.
  -- Where it does not, its code is the module's answer to the closing of a chosen session, the chosen ones
  -- in front of which were closed with CKR_OK; the positions behind it are untouched.
  pub close_chosen-Closes :
      (forgets ckr_ok ≡ true)
      → (xs : List SessionState) (s : S)
      → (r : List SessionState × S × ℕ) × (close_chosen (some close) chosen forgets xs s ≡ done r)
        × Closes xs s r
  unfolding close_chosen close_by
  close_chosen-Closes h [] s = (_, refl, inl (refl, no_more, refl))
  close_chosen-Closes h (x ∷ xs) s = elim (Bool-cases (chosen x)) [
    | inr skipped ↦
        let (r, e, c) = close_chosen-Closes h xs s in
        (
          (x ∷ r.0, r.1, r.2),
          rw (skipped, e) refl,
          in_front x x xs s s r (rw skipped refl) (λ zs s2 all. passed_over skipped all) c,
        )
    | inl picked ↦
        let answer = close x.id s in
        elim (Bool-cases (answer.1 == ckr_ok)) [
          | inl closed ↦
              let (r, e, c) = close_chosen-Closes h xs answer.0 in
              let ok : answer.1 ≡ ckr_ok = ground arith in
              let gone : forgets answer.1 ≡ true = ap forgets ok ∙ h in
              (
                (freed x ∷ r.0, r.1, r.2),
                rw (picked, gone, closed, e) refl,
                in_front x (freed x) xs s answer.0 r (rw picked refl)
                    (λ zs s2 all. closed_one picked ok all) c,
              )
          | inr failed ↦
              let refused : answer.1 ≢ ckr_ok = (λ e. ground (arith, e, failed)) in
              (
                ((if forgets answer.1 then freed x else x) ∷ xs, answer.0, answer.1),
                rw (picked, failed) refl,
                inr (record {
                  before = [];
                  x = x;
                  after = xs;
                  source = refl;
                  reached = s;
                  closed = no_more;
                  picked = picked;
                  code = refl;
                  bad = refused;
                  state = refl;
                  result = refl;
                }),
              )
        ]
  ]
