-- ===== src/Buffer/Wrote.antt =====
-- What a writer of egg-buffer.c does to the data: it appends its bytes, or counts a failure.
use pkcs11_proxy.Common.{
  ℕ, suc, ◌+◌, ◌<◌, ◌≡◌, refl, sym, ap, ◌∙◌, true, false, List, [], ◌∷◌, ◌++◌, append-nil,
  append_assoc, length, length-append, length-take, length-write_at, take-write_at, set, write_at,
  All, IsByte, arith,
}
use pkcs11_proxy.Buffer.{Buffer}
use pkcs11_proxy.Buffer.Inv.{IsValid, contents}
use pkcs11_proxy.Buffer.Reserve.{Reserved}

-- `b'` is `b` with the bytes `xs` behind its data, unless a failure is counted. None is where the block
-- has room for the bytes and one more.
pub record Wrote (b : Buffer) (xs : List ℕ) (b' : Buffer) : Type 0 where
  pub valid : IsValid b'
  pub same_allocator : b'.allocator ≡ b.allocator
  pub written : b'.failures ≡ 0 → (b.failures ≡ 0) × (contents b' ≡ contents b ++ xs)
  pub roomy :
      b.failures ≡ 0
      → b.len + length xs < b.allocated_len
      → (b'.failures ≡ 0) × (b'.allocated_len ≡ b.allocated_len)

pub length-contents : {b : Buffer} → IsValid b → length (contents b) ≡ b.len
length-contents {b} v = omega (arith, length-take b.len b.buf, v.sized, v.fits)

pub Wrote-nothing : {b : Buffer} → IsValid b → Wrote b [] b
Wrote-nothing {b} v = record {
  valid = v;
  same_allocator = refl;
  written = λ e. (e, sym (append-nil (contents b)));
  roomy = λ e h. (e, refl);
}

-- The length after a write that succeeded.
pub len-Wrote :
    {b : Buffer} (xs : List ℕ) {b' : Buffer}
    → IsValid b
    → Wrote b xs b'
    → b'.failures ≡ 0
    → b'.len ≡ b.len + length xs
len-Wrote {b} xs {b'} v w e = omega (
  arith,
  length-contents w.valid,
  length-contents v,
  length-append (contents b) xs,
  ap length (w.written e).1,
)

pub Wrote-seq :
    {b : Buffer} (xs : List ℕ) {b' : Buffer} (ys : List ℕ) {b'' : Buffer}
    → IsValid b
    → Wrote b xs b'
    → Wrote b' ys b''
    → Wrote b (xs ++ ys) b''
Wrote-seq {b} xs {b'} ys {b''} v w u = record {
  valid = u.valid;
  same_allocator = u.same_allocator ∙ w.same_allocator;
  written = λ e. (
    (w.written (u.written e).0).0,
    (u.written e).1
        ∙ ap (λ l. l ++ ys) (w.written (u.written e).0).1
        ∙ append_assoc (contents b) xs ys,
  );
  roomy = λ e h.
      let first = w.roomy e (omega (arith, length-append xs ys)) in
      let second =
        u.roomy first.0 (omega (arith, length-append xs ys, len-Wrote xs v w first.0, first.1)) in
      (second.0, second.1 ∙ first.1);
}

All-set : (xs : List ℕ) (i v : ℕ) → IsByte v → All IsByte xs → All IsByte (set xs i v)
All-set [] i v hv h = tt
All-set (x ∷ xs) ℕ.zero v hv h = (hv, h.1)
All-set (x ∷ xs) (suc i) v hv h = (h.0, All-set xs i v hv h.1)

All-write_at :
    (xs : List ℕ) (i : ℕ) (vs : List ℕ)
    → All IsByte vs
    → All IsByte xs
    → All IsByte (write_at xs i vs)
unfolding write_at
All-write_at xs i [] hv h = h
All-write_at xs i (v ∷ vs) hv h = All-write_at (set xs i v) (suc i) vs hv.1 (All-set xs i v hv.0 h)

-- `xs` is copied behind the data.
abbrev pub filled : List ℕ → Buffer → Buffer
filled xs b' = record b' { buf = write_at b'.buf b'.len xs; len = b'.len + length xs }

-- The step that all writers share: room was made for `xs`, and `xs` is copied.
module _ {b : Buffer} (xs : List ℕ) (v : IsValid b) (bytes : All IsByte xs) where
  pub filled-Wrote :
      {b' : Buffer} → Reserved b (b.len + length xs) b' true → Wrote b xs (filled xs b')
  filled-Wrote {b'} r = record {
    valid = record {
      sized = length-write_at b'.buf b'.len xs ∙ r.valid.sized;
      fits = omega (arith, r.same_len, (r.room refl).0);
      bounded = r.valid.bounded;
      bytes = All-write_at b'.buf b'.len xs bytes r.valid.bytes;
      lawful = r.valid.lawful;
    };
    same_allocator = r.same_allocator;
    written = λ e. (
      sym (r.room refl).1 ∙ e,
      take-write_at b'.buf b'.len (b'.len + length xs) xs refl
            (omega (arith, r.same_len, (r.room refl).0, r.valid.sized))
          ∙ ap (λ l. l ++ xs) r.same_contents,
    );
    roomy = λ e h. ((r.room refl).1 ∙ e, ap (λ (c : Buffer). c.allocated_len) (r.stays h).0);
  }

  pub refused-Wrote : {b' : Buffer} → Reserved b (b.len + length xs) b' false → Wrote b xs b'
  refused-Wrote {b'} r = record {
    valid = r.valid;
    same_allocator = r.same_allocator;
    written = λ e. absurd (omega (arith, ap (λ (c : Buffer). c.failures) (r.failed refl)));
    roomy = λ e h. cc ((r.stays h).1);
  }
