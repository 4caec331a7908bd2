-- ===== src/Util/Purge.antt =====
-- `gck_rpc_mechanism_list_purge` of gck-rpc-util.c: the mechanisms whose parameters cannot be sent are
-- taken out of a list, in place.
use pkcs11_proxy.Common.{
  ℕ, zero, suc, ◌+◌, ◌-◌, ◌<◌, ◌≤◌, ◌≡◌, refl, sym, subst, ap, ap₂, ◌∙◌, Bool, true, false, not,
  ◌&&◌, Bool-cases, inl, inr, Option, none, some, List, [], ◌∷◌, ◌++◌, append_assoc, length,
  length-append, length-take, append-nil, take, drop, take-append, drop-append, get_or, set,
  write_at, ltb, to_u32, if◌then◌else◌, arith,
}
use pkcs11_proxy.Util.{
  mechanism_has_no_parameters, mechanism_has_sane_parameters, mechanism_is_supported,
}

-- memmove (&mechs[i], &mechs[i + 1], count * sizeof (…)). `mechs` is the memory that the caller owns at the
-- pointer, from the list on, and `past` is the element that lies behind it, which the last one that moves
-- may be.
unfoldable pub move_down : ℕ → List ℕ → ℕ → ℕ → List ℕ
move_down past mechs i count = write_at mechs i (take count (drop (i + 1) mechs ++ (past ∷ [])))

-- `i < (int)(*n_mechs)` for an `i` that is not negative: of `*n_mechs` there are the lowest 32 bits, and
-- they are a negative number from 2^31 on.
unfoldable pub is_before : ℕ → ℕ → Bool
is_before i n = ltb (to_u32 n) 0x80000000 && ltb i (to_u32 n)

-- The loop from `i` on; there is no result if it has not come to its end when no rounds are left.
unfoldable pub purge_from : ℕ → ℕ → List ℕ → ℕ → ℕ → Option (List ℕ × ℕ)
purge_from past zero mechs n i = none
purge_from past (suc rounds) mechs n i =
    let mech = get_or mechs i 0 in
    let kept = purge_from past rounds mechs n (i + 1) in
    let removed = purge_from past rounds (move_down past mechs i (n - i)) (n - 1) i in
    if is_before i n
    then (if not (mechanism_has_no_parameters mech) && not (mechanism_has_sane_parameters mech)
        then removed
        else kept)
    else some (mechs, n)

-- Each round but the last goes to the next mechanism or shortens the list.
unfoldable pub mechanism_list_purge : ℕ → List ℕ → ℕ → Option (List ℕ × ℕ)
mechanism_list_purge past mechs n = purge_from past (suc n) mechs n 0

-- The mechanisms of a list that can be sent.
abbrev pub supported : List ℕ → List ℕ
supported [] = []
supported (m ∷ ms) = if mechanism_is_supported m then m ∷ supported ms else supported ms

-- The list is `xs`, at the beginning of the memory.
abbrev pub HoldsList : List ℕ → List ℕ × ℕ → Type 0
HoldsList xs (mechs, n) = (length xs ≡ n) × (take n mechs ≡ xs)

-- The loop has come to its end, with the list `xs`.
abbrev pub Leaves : List ℕ → Option (List ℕ × ℕ) → Type 0
Leaves xs out = (r : List ℕ × ℕ) × (out ≡ some r) × HoldsList xs r

is_before_list : (i n : ℕ) → n < 0x80000000 → is_before i n ≡ ltb i n
unfolding is_before
is_before_list i n h =
    let small : to_u32 n ≡ n = omega arith in
    let positive : ltb n 0x80000000 ≡ true = ground arith in rw (small, positive) refl

is_before-lt : (i n : ℕ) → is_before i n ≡ true → i < n
unfolding is_before
is_before-lt i n h =
    let low : to_u32 n ≤ n = omega arith in let inside : i < to_u32 n = ground arith in omega arith

supported_test :
    (m : ℕ)
    → (not (mechanism_has_no_parameters m) && not (mechanism_has_sane_parameters m))
      ≡ not (mechanism_is_supported m)
unfolding mechanism_is_supported
supported_test m = elim (Bool-cases (mechanism_has_no_parameters m)) [
  | inl e ↦ rw e refl
  | inr e ↦ rw e refl
]

get_or-append :
    (xs : List ℕ) (x : ℕ) (ys : List ℕ) (i : ℕ) → i ≡ length xs → get_or (xs ++ (x ∷ ys)) i 0 ≡ x
get_or-append [] x ys zero e = refl
get_or-append [] x ys (suc i) e = absurd (omega arith)
get_or-append (y ∷ xs) x ys zero e = absurd (omega arith)
get_or-append (y ∷ xs) x ys (suc i) e = get_or-append xs x ys i (omega arith)

set-append :
    (xs : List ℕ) (y v : ℕ) (ys : List ℕ) → set (xs ++ (y ∷ ys)) (length xs) v ≡ xs ++ (v ∷ ys)
set-append [] y v ys = refl
set-append (x ∷ xs) y v ys = ap (λ l. x ∷ l) (set-append xs y v ys)

length-snoc : (xs : List ℕ) (v : ℕ) → length (xs ++ (v ∷ [])) ≡ suc (length xs)
length-snoc xs v = omega (arith, length-append xs (v ∷ []))

-- A write in the middle.
write_at-append :
    (xs ys vs : List ℕ)
    → length vs ≤ length ys
    → write_at (xs ++ ys) (length xs) vs ≡ xs ++ (vs ++ drop (length vs) ys)
unfolding write_at
write_at-append xs ys [] h = refl
write_at-append xs [] (v ∷ vs) h = absurd (omega arith)
write_at-append xs (y ∷ ys) (v ∷ vs) h =
    ap (λ l. write_at l (suc (length xs)) vs)
      (set-append xs y v ys ∙ sym (append_assoc xs (v ∷ []) ys))
    ∙ ap (λ n. write_at ((xs ++ (v ∷ [])) ++ ys) n vs) (sym (length-snoc xs v))
    ∙ write_at-append (xs ++ (v ∷ [])) ys vs (omega arith)
    ∙ append_assoc xs (v ∷ []) (vs ++ drop (length vs) ys)

take_past : (ms after : List ℕ) (k : ℕ) → take (length ms + k) (ms ++ after) ≡ ms ++ take k after
take_past [] after k = let none_more : 0 + k ≡ k = omega arith in ap (λ n. take n after) none_more
take_past (m ∷ ms) after k =
    let one_more : suc (length ms) + k ≡ suc (length ms + k) = omega arith in
    rw one_more (ap (λ l. m ∷ l) (take_past ms after k))

-- The rest of the list moves down over `x`.
move_down_lem :
    (past : ℕ) (xs : List ℕ) (x : ℕ) (ms after : List ℕ)
    → (later : List ℕ) × (move_down past (xs ++ (x ∷ (ms ++ after))) (length xs) (length ms + 1)
        ≡ xs ++ (ms ++ later))
unfolding move_down
move_down_lem past xs x ms after =
    let ys = x ∷ (ms ++ after) in
    let behind = after ++ (past ∷ []) in
    let vs = ms ++ take 1 behind in
    let source : drop (length xs + 1) (xs ++ ys) ≡ ms ++ after =
      ap (drop (length xs + 1)) (sym (append_assoc xs (x ∷ []) (ms ++ after)))
      ∙ drop-append (xs ++ (x ∷ [])) (ms ++ after) (length xs + 1)
          (omega (arith, length-snoc xs x)) in
    let copied : take (length ms + 1) (drop (length xs + 1) (xs ++ ys) ++ (past ∷ [])) ≡ vs =
      ap (λ l. take (length ms + 1) (l ++ (past ∷ []))) source
      ∙ ap (take (length ms + 1)) (append_assoc ms after (past ∷ []))
      ∙ take_past ms behind 1 in
    let fits : length vs ≤ length ys =
      omega
        (arith, length-append ms (take 1 behind), length-append ms after, length-take 1 behind) in
    (
      take 1 behind ++ drop (length vs) ys,
      ap (write_at (xs ++ ys) (length xs)) copied
          ∙ write_at-append xs ys vs fits
          ∙ ap (λ l. xs ++ l) (append_assoc ms (take 1 behind) (drop (length vs) ys)),
    )

module _ (past : ℕ) where
  purge_stop :
      (rounds : ℕ) (mechs : List ℕ) (n i : ℕ)
      → is_before i n ≡ false
      → purge_from past (suc rounds) mechs n i ≡ some (mechs, n)
  unfolding purge_from
  purge_stop rounds mechs n i h = rw h refl

  purge_keep :
      (rounds : ℕ) (mechs : List ℕ) (n i : ℕ)
      → is_before i n ≡ true
      → mechanism_is_supported (get_or mechs i 0) ≡ true
      → purge_from past (suc rounds) mechs n i ≡ purge_from past rounds mechs n (i + 1)
  unfolding purge_from
  purge_keep rounds mechs n i h s = rw (h, supported_test (get_or mechs i 0), s) refl

  purge_remove :
      (rounds : ℕ) (mechs : List ℕ) (n i : ℕ)
      → is_before i n ≡ true
      → mechanism_is_supported (get_or mechs i 0) ≡ false
      → purge_from past (suc rounds) mechs n i
        ≡ purge_from past rounds (move_down past mechs i (n - i)) (n - 1) i
  unfolding purge_from
  purge_remove rounds mechs n i h s = rw (h, supported_test (get_or mechs i 0), s) refl

  -- The rounds are enough for any list.
  purge_from_returns :
      (rounds : ℕ) (mechs : List ℕ) (n i : ℕ)
      → n - i < rounds
      → (r : List ℕ × ℕ) × (purge_from past rounds mechs n i ≡ some r)
  purge_from_returns zero mechs n i h = absurd (omega arith)
  purge_from_returns (suc rounds) mechs n i h = elim (Bool-cases (is_before i n)) [
    | inr behind ↦ ((mechs, n), purge_stop rounds mechs n i behind)
    | inl before ↦
        let lt = is_before-lt i n before in
        elim (Bool-cases (mechanism_is_supported (get_or mechs i 0))) [
          | inl good ↦
              let (r, e) = purge_from_returns rounds mechs n (i + 1) (omega arith) in
              (r, purge_keep rounds mechs n i before good ∙ e)
          | inr bad ↦
              let (r, e) =
                purge_from_returns rounds (move_down past mechs i (n - i)) (n - 1) i
                  (omega arith) in
              (r, purge_remove rounds mechs n i before bad ∙ e)
        ]
  ]

  pub mechanism_list_purge_returns :
      (mechs : List ℕ) (n : ℕ) → (r : List ℕ × ℕ) × (mechanism_list_purge past mechs n ≡ some r)
  unfolding mechanism_list_purge
  mechanism_list_purge_returns mechs n = purge_from_returns (suc n) mechs n 0 (omega arith)

  -- The loop stops behind the list.
  purge_from_end :
      (rounds : ℕ) (xs after : List ℕ) (n : ℕ)
      → n < 0x80000000
      → n ≡ length xs + 0
      → Leaves (xs ++ []) (purge_from past (suc rounds) (xs ++ after) n (length xs))
  purge_from_end rounds xs after n small e =
      let outside : ltb (length xs) n ≡ false = ground (arith, e) in
      (
        (xs ++ after, n),
        purge_stop rounds (xs ++ after) n (length xs)
            (is_before_list (length xs) n small ∙ outside),
        (
          ap length (append-nil xs) ∙ omega (arith, e),
          take-append xs after n (omega (arith, e)) ∙ sym (append-nil xs),
        ),
      )

  purge_from-Leaves :
      (rounds : ℕ) (xs ms after : List ℕ) (n : ℕ)
      → length ms < rounds
      → n < 0x80000000
      → n ≡ length xs + length ms
      → Leaves (xs ++ supported ms) (purge_from past rounds (xs ++ (ms ++ after)) n (length xs))
  purge_from-Leaves zero xs ms after n h small e = absurd (omega arith)
  purge_from-Leaves (suc rounds) xs [] after n h small e = purge_from_end rounds xs after n small e
  purge_from-Leaves (suc rounds) xs (m ∷ ms) after n h small e =
      let mechs = xs ++ (m ∷ (ms ++ after)) in
      let in_list : ltb (length xs) n ≡ true = ground (arith, e) in
      let inside = is_before_list (length xs) n small ∙ in_list in
      let found : get_or mechs (length xs) 0 ≡ m =
        get_or-append xs m (ms ++ after) (length xs) refl in
      elim (Bool-cases (mechanism_is_supported m)) [
        | inl good ↦
            let moved = append_assoc xs (m ∷ []) (ms ++ after) in
            let rest =
              purge_from-Leaves rounds (xs ++ (m ∷ [])) ms after n (omega arith) small
                (omega (arith, e, length-snoc xs m)) in
            rw good (
              subst (Leaves (xs ++ (m ∷ supported ms)))
                (ap₂ (λ l i. purge_from past rounds l n i) moved
                    (length-snoc xs m ∙ next (length xs))
                  ∙ sym (
                      purge_keep rounds mechs n (length xs) inside
                        (ap mechanism_is_supported found ∙ good)))
                (subst
                  (λ l. Leaves l (
                    purge_from past rounds ((xs ++ (m ∷ [])) ++ (ms ++ after)) n
                      (length (xs ++ (m ∷ [])))))
                  (append_assoc xs (m ∷ []) (supported ms)) rest))
        | inr bad ↦
            let (later, moved) = move_down_lem past xs m ms after in
            let count : n - length xs ≡ length ms + 1 = omega (arith, e) in
            let rest =
              purge_from-Leaves rounds xs ms later (n - 1) (omega arith) (omega arith)
                (omega (arith, e)) in
            rw bad (
              subst (Leaves (xs ++ supported ms))
                (sym (
                  purge_remove rounds mechs n (length xs) inside
                    (ap mechanism_is_supported found ∙ bad)
                  ∙ ap (λ l. purge_from past rounds l (n - 1) (length xs))
                      (ap (move_down past mechs (length xs)) count ∙ moved)))
                rest)
      ]
    where
      next : (i : ℕ) → suc i ≡ i + 1
      next i = omega arith

  -- The loop over a list of fewer than 2^31 mechanisms comes to its end, after at most one round for each
  -- mechanism and the one that stops. What is left of the list are the mechanisms that can be sent, in their
  -- order, and the count is theirs, whatever lies behind the list.
  pub mechanism_list_purge-HoldsList :
      (ms after : List ℕ)
      → length ms < 0x80000000
      → Leaves (supported ms) (mechanism_list_purge past (ms ++ after) (length ms))
  unfolding mechanism_list_purge
  mechanism_list_purge-HoldsList ms after small =
      purge_from-Leaves (suc (length ms)) [] ms after (length ms) (omega arith) small (omega arith)
