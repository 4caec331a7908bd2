-- ===== src/Message/RoundTrip.antt =====
-- What one end writes with gck-rpc-message.c, the other end reads with it.
use pkcs11_proxy.Common.{
  ℕ, ◌^◌, ◌<◌, ◌≡◌, sym, ap, ◌∙◌, subst, Bool, some, List, [], ◌∷◌, ◌++◌, append-nil, codes,
  Outcome, done, IsByte,
}
use pkcs11_proxy.Wire
use pkcs11_proxy.Wire.{be64}
use pkcs11_proxy.Wire.RoundTrip.{read_be64-be64}
use pkcs11_proxy.Buffer.Unread.{unread}
use pkcs11_proxy.Buffer.Appended.{unread-Writes}
use pkcs11_proxy.Pkcs11.{Version}
use pkcs11_proxy.Message.{Message}
use pkcs11_proxy.Message.Read.{read_ulong, read_version}
use pkcs11_proxy.Message.Write.{write_ulong, write_version}
use pkcs11_proxy.Message.Advance.{Expects, Put}
use pkcs11_proxy.Message.WriteSteps.{Puts, write_ulong-Puts, write_version-Puts}
use pkcs11_proxy.Message.ReadSteps.{Takes, read_ulong-Takes, version_of, read_version-Takes}

-- The bytes that come to `msg'` begin with those that the writer has put behind the data of `msg`.
abbrev pub Arrives : Message → Message × Bool → Message → List ℕ → Type 0
Arrives msg r msg' more = unread msg'.buffer msg'.parsed ≡ unread r.0.buffer msg.buffer.len ++ more

arrived :
    (msg : Message) (text rest xs : List ℕ) (out : Outcome (Message × Bool)) (r : Message × Bool)
    → Expects msg text
    → Puts msg rest xs out
    → out ≡ done r
    → r.0.buffer.failures ≡ 0
    → unread r.0.buffer msg.buffer.len ≡ xs
arrived msg text rest xs out r x (r', e', p) e sound =
    let same : r' ≡ r = inj (sym e' ∙ e) in
    let p' = subst (Put msg rest xs) same p in
    unread-Writes xs x.valid p'.writes sound ∙ append-nil xs
  where
    inj : {s t : Message × Bool} → done s ≡ done t → s ≡ t
    inj e = cc

module _ (msg msg' : Message) (rest rest' more : List ℕ) (r : Message × Bool) where
  -- A number below 2 ^ 64 that was written without a failure is the number that is read where its bytes
  -- arrive, and the reader stops behind them. Both signatures go on with its letter, and both buffers are
  -- valid.
  pub read_ulong-write_ulong :
      (val : ℕ)
      → val < 2 ^ 64
      → Expects msg (codes "u" ++ rest)
      → Expects msg' (codes "u" ++ rest')
      → write_ulong msg val ≡ done r
      → r.0.buffer.failures ≡ 0
      → Arrives msg r msg' more
      → Takes msg' rest' (some (val, more)) (read_ulong msg')
  read_ulong-write_ulong val small x x' e sound a =
      let bytes = arrived msg _ rest (be64 val) _ r x (write_ulong-Puts msg rest val x) e sound in
      subst (λ p. Takes msg' rest' p (read_ulong msg'))
        (ap Wire.read_be64 (a ∙ ap (λ l. l ++ more) bytes) ∙ read_be64-be64 val more small)
        (read_ulong-Takes msg' rest' x')

  -- A version that was written without a failure is the version that is read where its bytes arrive, and
  -- the reader stops behind them. Both signatures go on with its letter, and both buffers are valid.
  pub read_version-write_version :
      (version : Version)
      → IsByte version.major
      → IsByte version.minor
      → Expects msg (codes "v" ++ rest)
      → Expects msg' (codes "v" ++ rest')
      → write_version msg version ≡ done r
      → r.0.buffer.failures ≡ 0
      → Arrives msg r msg' more
      → Takes msg' rest' (some (version, more)) (read_version msg')
  unfolding Wire.and_then Wire.read_byte
  read_version-write_version version h k x x' e sound a =
      let bytes =
        arrived msg _ rest (version.major ∷ version.minor ∷ []) _ r x
          (write_version-Puts msg rest version x h k) e sound in
      subst (λ p. Takes msg' rest' p (read_version msg'))
        (ap version_of (a ∙ ap (λ l. l ++ more) bytes)) (read_version-Takes msg' rest' x')
