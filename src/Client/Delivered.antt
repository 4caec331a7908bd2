-- ===== src/Client/Delivered.antt =====
-- What call_write and call_read of gck-rpc-module.c make of a connection, whatever the system answers to
-- their calls of `send` and `recv`.
use pkcs11_proxy.Common.{
  ℕ, zero, suc, ◌+◌, ◌-◌, ◌≤◌, ◌<◌, min, ◌≡◌, refl, sym, ap, ◌∙◌, ◌⊎◌, inl, inr, Bool, true, false,
  Bool-cases, Option, none, some, List, [], ◌∷◌, ◌++◌, append-nil, append_assoc, length,
  length-append, length-take, length-drop, take, drop, take-append, drop-append, subst,
  take-append-drop, All, leb, lt→ltb, done, arith,
}
use pkcs11_proxy.Pkcs11.{ckr_ok, ckr_device_error}
use pkcs11_proxy.Client.{
  Errno, epipe, eagain, eintr, other, Reply, moved, failed, Socket, CallState,
}
use pkcs11_proxy.Client.Transport.{
  Result, count, error, result_of, tls_result, write_loop, call_write, read_rest, read_loop, behind,
  call_read,
}

-- The system moves at least a byte, or asks to try again.
abbrev pub Harmless : Reply → Type 0
Harmless (moved n) = 0 < n
Harmless (failed epipe) = ⊥
Harmless (failed eagain) = Unit {0}
Harmless (failed eintr) = Unit {0}
Harmless (failed other) = ⊥

-- All of `bytes` is behind what was written, and the code is CKR_OK; or a part of it is, if the connection
-- is still open, and the code is CKR_DEVICE_ERROR. Nothing is read.
pub data Wrote (s : Socket) (bytes : List ℕ) : Option Socket × ℕ → Type 0 where
  all :
      {s' : Socket} {r : Option Socket × ℕ}
      → r ≡ (some s', ckr_ok)
      → s'.outgoing ≡ s.outgoing ++ bytes
      → s'.incoming ≡ s.incoming
      → Wrote s bytes r
  part :
      {s' : Socket} {r : Option Socket × ℕ} (rest : List ℕ)
      → r ≡ (some s', ckr_device_error)
      → s'.outgoing ++ rest ≡ s.outgoing ++ bytes
      → s'.incoming ≡ s.incoming
      → Wrote s bytes r
  closed : {r : Option Socket × ℕ} → r ≡ (none, ckr_device_error) → Wrote s bytes r

-- What is written behind a first part.
Wrote-more :
    (s : Socket) (first bytes rest : List ℕ) (r : Option Socket × ℕ)
    → first ++ rest ≡ bytes
    → Wrote (record s { outgoing = s.outgoing ++ first }) rest r
    → Wrote s bytes r
Wrote-more s first bytes rest r e (all p q i) =
    all p (q ∙ append_assoc s.outgoing first rest ∙ ap (λ t. s.outgoing ++ t) e) i
Wrote-more s first bytes rest r e (part left p q i) =
    part left p (q ∙ append_assoc s.outgoing first rest ∙ ap (λ t. s.outgoing ++ t) e) i
Wrote-more s first bytes rest r e (closed p) = closed p

Result-cases : (r : Result) → ((n : ℕ) × (r ≡ count n)) ⊎ ((e : Errno) × (r ≡ error e))
Result-cases (count n) = inl (n, refl)
Result-cases (error e) = inr (e, refl)

abbrev tls_of : Bool → Reply → ℕ → Result
tls_of = result_of

pub write_loop-Wrote :
    (tls : Bool) (replies : List Reply) (s : Socket) (bytes : List ℕ)
    → Wrote s bytes (write_loop tls replies s bytes)
unfolding write_loop
write_loop-Wrote tls [] s bytes = all refl refl refl
write_loop-Wrote tls (reply ∷ replies) s [] = all refl (sym (append-nil s.outgoing)) refl
write_loop-Wrote tls (reply ∷ replies) s (x ∷ bytes) =
    elim (Result-cases (result_of tls reply (length (x ∷ bytes)))) [
      | inl (n, e) ↦
          rw (e, write_loop)
            (Wrote-more s (take n (x ∷ bytes)) (x ∷ bytes) (drop n (x ∷ bytes)) _
              (take-append-drop n (x ∷ bytes))
              (write_loop-Wrote tls replies _ (drop n (x ∷ bytes))))
      | inr (epipe, e) ↦ rw (e, write_loop) (closed refl)
      | inr (eagain, e) ↦ rw (e, write_loop) (write_loop-Wrote tls replies s (x ∷ bytes))
      | inr (eintr, e) ↦ rw (e, write_loop) (write_loop-Wrote tls replies s (x ∷ bytes))
      | inr (other, e) ↦ rw (e, write_loop) (part (x ∷ bytes) refl refl refl)
    ]

-- On a plain connection whose system never fails for good all bytes are written.
pub write_loop_settles :
    (replies : List Reply) (s : Socket) (bytes : List ℕ)
    → All Harmless replies
    → (s' : Socket) × (write_loop false replies s bytes ≡ (some s', ckr_ok))
      × All Harmless s'.replies
unfolding write_loop result_of
write_loop_settles [] s bytes h = (_, refl, tt)
write_loop_settles (reply ∷ replies) s [] h = (_, refl, h)
write_loop_settles (moved n ∷ replies) s (x ∷ bytes) h = write_loop_settles replies _ _ h.1
write_loop_settles (failed epipe ∷ replies) s (x ∷ bytes) h = absurd h.0
write_loop_settles (failed eagain ∷ replies) s (x ∷ bytes) h =
    write_loop_settles replies s (x ∷ bytes) h.1
write_loop_settles (failed eintr ∷ replies) s (x ∷ bytes) h =
    write_loop_settles replies s (x ∷ bytes) h.1
write_loop_settles (failed other ∷ replies) s (x ∷ bytes) h = absurd h.0

-- So many bytes were read, the first of those that had come, and the code is CKR_OK; or fewer, and the code
-- is CKR_DEVICE_ERROR. Nothing is written.
pub data Got (s : Socket) (n : ℕ) : Option Socket × List ℕ × ℕ → Type 0 where
  whole :
      {s' : Socket} {bytes : List ℕ} {r : Option Socket × List ℕ × ℕ}
      → r ≡ (some s', bytes, ckr_ok)
      → length bytes ≡ n
      → bytes ++ s'.incoming ≡ s.incoming
      → s'.outgoing ≡ s.outgoing
      → Got s n r
  short :
      {o : Option Socket} {bytes : List ℕ} {r : Option Socket × List ℕ × ℕ} (rest : List ℕ)
      → r ≡ (o, bytes, ckr_device_error)
      → bytes ++ rest ≡ s.incoming
      → Got s n r

read_rest-Got : (s : Socket) (n : ℕ) → Got s n (read_rest s n)
unfolding read_rest
read_rest-Got s n = elim (Bool-cases (leb n (length s.incoming))) [
  | inl e ↦
      rw e
        (whole refl (length-take n s.incoming ∙ ground arith) (take-append-drop n s.incoming) refl)
  | inr e ↦ rw e (short [] refl (append-nil s.incoming))
]

-- What is read behind a first part.
Got-more :
    (s : Socket) (k n m : ℕ) (r : Option Socket × List ℕ × ℕ)
    → k ≤ length s.incoming
    → k + m ≡ n
    → Got (record s { incoming = drop k s.incoming }) m r
    → Got s n (behind (take k s.incoming) r)
Got-more s k n m r fits e (whole {bytes = bytes} p size same out) =
    whole (ap (behind (take k s.incoming)) p)
      (omega (arith, length-append (take k s.incoming) bytes, length-take k s.incoming, size))
      (append_assoc (take k s.incoming) bytes _
        ∙ ap (λ t. take k s.incoming ++ t) same
        ∙ take-append-drop k s.incoming)
      out
Got-more s k n m r fits e (short {bytes = bytes} rest p same) =
    short rest (ap (behind (take k s.incoming)) p) (
      append_assoc (take k s.incoming) bytes _
      ∙ ap (λ t. take k s.incoming ++ t) same
      ∙ take-append-drop k s.incoming)

count-le : (tls : Bool) (reply : Reply) (n k : ℕ) → result_of tls reply n ≡ count k → k ≤ n
unfolding result_of tls_result
count-le true (moved m) n k e = let e' : min m n ≡ k = cc in omega arith
count-le true (failed f) n k e = let e' : 0 ≡ k = cc in omega arith
count-le false (moved m) n k e = let e' : min m n ≡ k = cc in omega arith
count-le false (failed f) n k e = absurd cc

pub read_loop-Got :
    (tls : Bool) (replies : List Reply) (s : Socket) (n : ℕ) → Got s n (read_loop tls replies s n)
unfolding read_loop
read_loop-Got tls [] s n = read_rest-Got s n
read_loop-Got tls (reply ∷ replies) s zero = whole refl refl refl refl
read_loop-Got tls (reply ∷ replies) s (suc n) =
    elim (Result-cases (result_of tls reply (min (suc n) (length s.incoming)))) [
      | inl (zero, e) ↦ rw (e, read_loop) (short s.incoming refl refl)
      | inl (suc j, e) ↦
          let le = count-le tls reply _ _ e in
          rw (e, read_loop)
            (Got-more s (suc j) (suc n) (n - j) _ (omega arith) (omega arith)
              (read_loop-Got tls replies _ (n - j)))
      | inr (epipe, e) ↦ rw (e, read_loop) (short s.incoming refl refl)
      | inr (eagain, e) ↦ rw (e, read_loop) (read_loop-Got tls replies s (suc n))
      | inr (eintr, e) ↦ rw (e, read_loop) (read_loop-Got tls replies s (suc n))
      | inr (other, e) ↦ rw (e, read_loop) (short s.incoming refl refl)
    ]

-- On a plain connection whose system never fails for good, and on which enough has come, all is read.
pub read_loop_settles :
    (replies : List Reply) (s : Socket) (n : ℕ)
    → All Harmless replies
    → n ≤ length s.incoming
    → (s' : Socket) × (bytes : List ℕ) × (read_loop false replies s n ≡ (some s', bytes, ckr_ok))
      × All Harmless s'.replies
unfolding read_loop result_of read_rest
read_loop_settles [] s n h enough =
    let e : leb n (length s.incoming) ≡ true = ground arith in rw e (_, _, refl, tt)
read_loop_settles (reply ∷ replies) s zero h enough = (_, _, refl, h)
read_loop_settles (moved m ∷ replies) s (suc n) h enough =
    let k = min m (min (suc n) (length s.incoming)) in
    let e : k ≡ suc (k - 1) = omega (arith, h.0) in
    let (s', bytes, read, calm) =
      read_loop_settles replies (record s { incoming = drop (suc (k - 1)) s.incoming })
        (n - (k - 1)) h.1 (omega (arith, length-drop (suc (k - 1)) s.incoming)) in
    rw (e, read_loop) (s', _, ap (behind (take (suc (k - 1)) s.incoming)) read, calm)
read_loop_settles (failed epipe ∷ replies) s (suc n) h enough = absurd h.0
read_loop_settles (failed eagain ∷ replies) s (suc n) h enough =
    read_loop_settles replies s (suc n) h.1 enough
read_loop_settles (failed eintr ∷ replies) s (suc n) h enough =
    read_loop_settles replies s (suc n) h.1 enough
read_loop_settles (failed other ∷ replies) s (suc n) h enough = absurd h.0

Wrote-ok :
    {s s' : Socket} {bytes : List ℕ}
    → Wrote s bytes (some s', ckr_ok)
    → (s'.outgoing ≡ s.outgoing ++ bytes) × (s'.incoming ≡ s.incoming)
Wrote-ok {s' = s'} (all {s' = t} p out same) =
    let e : s' ≡ t = cc in
    (ap (λ (x : Socket). x.outgoing) e ∙ out, ap (λ (x : Socket). x.incoming) e ∙ same)
Wrote-ok (part rest p out same) = absurd cc
Wrote-ok (closed p) = absurd cc

Got-ok :
    {s s' : Socket} {n : ℕ} {bytes : List ℕ}
    → Got s n (some s', bytes, ckr_ok)
    → (bytes ≡ take n s.incoming) × (s'.incoming ≡ drop n s.incoming) × (s'.outgoing ≡ s.outgoing)
Got-ok {s = s} {s' = s'} {n = n} {bytes = bytes} (whole {s' = t} {bytes = read} p size same out) =
    let e : s' ≡ t = cc in
    let f : bytes ≡ read = cc in
    (
      f ∙ sym (take-append read t.incoming n (sym size)) ∙ ap (take n) same,
      ap (λ (x : Socket). x.incoming) e
          ∙ sym (drop-append read t.incoming n (sym size))
          ∙ ap (drop n) same,
      ap (λ (x : Socket). x.outgoing) e ∙ out,
    )
Got-ok (short rest p same) = absurd cc

-- Over a plain connection, whatever short counts and interruptions come first, as long as no call of `send`
-- fails for good, `call_write` of at least one byte ends with CKR_OK, and exactly these bytes are behind
-- what was written before; nothing is read, all else in the call state stays, and no later call of the
-- system that is known fails for good.
pub call_write_delivers :
    (cs : CallState) (s : Socket) (bytes : List ℕ)
    → cs.socket ≡ some s
    → cs.tls ≡ false
    → All Harmless s.replies
    → 0 < length bytes
    → (s' : Socket) × (call_write cs bytes ≡ done (record cs { socket = some s' }, ckr_ok))
      × (s'.outgoing ≡ s.outgoing ++ bytes)
      × (s'.incoming ≡ s.incoming)
      × All Harmless s'.replies
unfolding call_write
call_write_delivers cs s bytes given plain h some_bytes =
    let (s', e, calm) = write_loop_settles s.replies s bytes h in
    let result : call_write cs bytes ≡ done (record cs { socket = some s' }, ckr_ok) =
      rw (lt→ltb 0 (length bytes) some_bytes, given, plain, e) refl in
    let sent = subst (Wrote s bytes) e (write_loop-Wrote false s.replies s bytes) in
    let (out, same) = Wrote-ok sent in (s', result, out, same, calm)

-- Over a plain connection on which at least the bytes that are asked for come, whatever short counts and
-- interruptions come first, as long as no call of `recv` fails for good, `call_read` of at least one
-- byte ends with CKR_OK and returns exactly the next bytes that came; what comes behind them is still
-- unread, nothing is written, all else in the call state stays, and no later call of the system that is
-- known fails for good.
pub call_read_receives :
    (cs : CallState) (s : Socket) (n : ℕ)
    → cs.socket ≡ some s
    → cs.tls ≡ false
    → All Harmless s.replies
    → 0 < n
    → n ≤ length s.incoming
    → (s' : Socket) × (call_read cs n
        ≡ done (record cs { socket = some s' }, take n s.incoming, ckr_ok))
      × (s'.incoming ≡ drop n s.incoming)
      × (s'.outgoing ≡ s.outgoing)
      × All Harmless s'.replies
unfolding call_read
call_read_receives cs s n given plain h positive enough =
    let (s', bytes, e, calm) = read_loop_settles s.replies s n h enough in
    let got = subst (Got s n) e (read_loop-Got false s.replies s n) in
    let (exact, rest, same) = Got-ok got in
    let result : call_read cs n ≡ done (record cs { socket = some s' }, bytes, ckr_ok) =
      rw (lt→ltb 0 n positive, given, plain, e) refl in
    (
      s',
      result ∙ ap (λ t. done (record cs { socket = some s' }, t, ckr_ok)) exact,
      rest,
      same,
      calm,
    )
