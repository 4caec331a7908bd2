-- ===== src/Buffer/Reserve.antt =====
-- egg_buffer_reserve: after it there is room, or nothing but the failure count has changed.
use pkcs11_proxy.Common.{
  ℕ, ◌+◌, ◌^◌, ◌≤◌, ◌<◌, min, ◌≡◌, refl, sym, ap, ◌∙◌, inl, inr, Bool, true, false, Bool-cases,
  none, some, Option-cases, List, length, take, take-take, ltb, ltb→lt, lt→ltb, arith,
}
use pkcs11_proxy.Buffer.{Buffer, Allocator, fail, new_length, reserve}
use pkcs11_proxy.Buffer.Inv.{IsValid, contents}

pub record Reserved (b : Buffer) (len : ℕ) (b' : Buffer) (done : Bool) : Type 0 where
  pub valid : IsValid b'
  pub same_len : b'.len ≡ b.len
  pub same_contents : contents b' ≡ contents b
  pub same_allocator : b'.allocator ≡ b.allocator
  pub room : done ≡ true → (len ≤ b'.allocated_len) × (b'.failures ≡ b.failures)
  pub failed : done ≡ false → b' ≡ fail b
  pub stays : len < b.allocated_len → (b' ≡ b) × (done ≡ true)

-- The size asked for does not wrap round.
new_length_enough :
    (allocated len : ℕ)
    → allocated < 2 ^ 63
    → len ≤ allocated + 2 ^ 62
    → allocated ≤ len
    → (len ≤ new_length allocated len) × (allocated ≤ new_length allocated len)
unfolding new_length
new_length_enough allocated len h k l = ground arith

fail-IsValid : {b : Buffer} → IsValid b → IsValid (fail b)
fail-IsValid v = record {
  sized = v.sized;
  fits = v.fits;
  bounded = v.bounded;
  bytes = v.bytes;
  lawful = v.lawful;
}

fail-Reserved :
    {b : Buffer} (len : ℕ)
    → IsValid b
    → ltb len b.allocated_len ≡ false
    → Reserved b len (fail b) false
fail-Reserved len v large = record {
  valid = fail-IsValid v;
  same_len = refl;
  same_contents = refl;
  same_allocator = refl;
  room = λ e. cc;
  failed = λ _. refl;
  stays = λ h. cc (large, lt→ltb _ _ h);
}

stay-Reserved : {b : Buffer} (len : ℕ) → IsValid b → len ≤ b.allocated_len → Reserved b len b true
stay-Reserved len v h = record {
  valid = v;
  same_len = refl;
  same_contents = refl;
  same_allocator = refl;
  room = λ _. (h, refl);
  failed = λ e. cc;
  stays = λ _. (refl, refl);
}

-- The four ways through the function.
module _ (b : Buffer) (len : ℕ) where
  reserve_stay : ltb len b.allocated_len ≡ true → reserve b len ≡ (b, true)
  unfolding reserve
  reserve_stay h = rw h

  reserve_static :
      ltb len b.allocated_len ≡ false → b.allocator ≡ none → reserve b len ≡ (fail b, false)
  unfolding reserve
  reserve_static h e = ground arith

  module _ (a : Allocator) (h : ltb len b.allocated_len ≡ false) (e : b.allocator ≡ some a) where
    reserve_denied :
        a.realloc b.buf (new_length b.allocated_len len) ≡ none → reserve b len ≡ (fail b, false)
    unfolding reserve
    reserve_denied r = ground arith

    reserve_moved :
        (block : List ℕ)
        → a.realloc b.buf (new_length b.allocated_len len) ≡ some block
        → reserve b len
          ≡ (record b { buf = block; allocated_len = new_length b.allocated_len len }, true)
    unfolding reserve
    reserve_moved block r = ground arith

module _ {b : Buffer} (len : ℕ) (v : IsValid b) (h : len ≤ b.len + 2 ^ 62) where
  moved-Reserved :
      (a : Allocator) (block : List ℕ)
      → b.allocated_len ≤ len
      → b.allocator ≡ some a
      → a.realloc b.buf (new_length b.allocated_len len) ≡ some block
      → Reserved b len
          (record b { buf = block; allocated_len = new_length b.allocated_len len })
          true
  moved-Reserved a block more e r =
      let law = v.lawful a e in
      let size = new_length b.allocated_len len in
      let enough = new_length_enough b.allocated_len len v.bounded (omega (arith, v.fits)) more in
      let below : b.len ≤ min size (length b.buf) = omega (arith, v.fits, v.sized, enough) in
      let same : take b.len block ≡ take b.len b.buf =
        sym (take-take b.len (min size (length b.buf)) block below)
        ∙ ap (λ l. take b.len l) (law.kept b.buf size block r)
        ∙ take-take b.len (min size (length b.buf)) b.buf below in
      record {
        valid = record {
          sized = law.sized b.buf size block r;
          fits = omega (arith, v.fits, enough);
          bounded = law.bounded b.buf size block r;
          bytes = law.bytes b.buf size block v.bytes r;
          lawful = v.lawful;
        };
        same_len = refl;
        same_contents = same;
        same_allocator = refl;
        room = λ _. (enough.0, refl);
        failed = λ f. cc;
        stays = λ k. absurd (omega arith);
      }

  -- Asked for at most 2 ^ 62 bytes more than a valid buffer has data, `egg_buffer_reserve` leaves a
  -- valid buffer with the same data. Where it succeeds the block has the length asked for; where it
  -- does not, only the failure is counted; and where the block was large enough nothing changes.
  pub reserve-Reserved : Reserved b len (reserve b len).0 (reserve b len).1
  reserve-Reserved = elim (Bool-cases (ltb len b.allocated_len)) [
    | inl small ↦
        rw (reserve_stay b len small) (stay-Reserved len v (omega (arith, ltb→lt _ _ small)))
    | inr large ↦ elim (Option-cases b.allocator) [
      | inl fixed ↦ rw (reserve_static b len large fixed) (fail-Reserved len v large)
      | inr (a, e) ↦ elim (Option-cases (a.realloc b.buf (new_length b.allocated_len len))) [
        | inl denied ↦ rw (reserve_denied b len a large e denied) (fail-Reserved len v large)
        | inr (block, r) ↦
            rw (reserve_moved b len a large e block r) (moved-Reserved a block (ground arith) e r)
      ]
    ]
  ]
