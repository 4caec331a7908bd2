-- ===== src/Message/Advance.antt =====
-- How a value moves a message along its signature, and what writing one leaves behind.
use pkcs11_proxy.Common.{
  ℕ, ◌≡◌, refl, sym, ap, ◌∙◌, ◌≢◌, Bool, true, none, some, List, ◌++◌, codes, strip_prefix-append,
  done, arith,
}
use Prim.Native.String.{String}
use pkcs11_proxy.Buffer.{Buffer}
use pkcs11_proxy.Buffer.Inv.{IsValid}
use pkcs11_proxy.Buffer.Wrote.{Wrote}
use pkcs11_proxy.Buffer.Writers.{Writes}
use pkcs11_proxy.Message.{Message, verify_part, check_part}
use pkcs11_proxy.Message.Write.{put, put_all}

-- The message has a signature, and `text` is what is still to come of it.
pub record Expects (msg : Message) (text : List ℕ) : Type 0 where
  pub signed : msg.signature ≢ none
  pub rest : msg.sigverify ≡ some text
  pub valid : IsValid msg.buffer

-- The message after a check that found its letters.
abbrev pub advanced : Message → List ℕ → Message
advanced msg rest = record msg { sigverify = some rest }

pub verify_part_lem :
    (msg : Message) (part rest : List ℕ)
    → msg.sigverify ≡ some (part ++ rest)
    → verify_part msg part ≡ (advanced msg rest, true)
unfolding verify_part
verify_part_lem msg part rest e = ground (arith, strip_prefix-append part rest)

pub check_part_lem :
    (part : String) (msg : Message) (rest : List ℕ)
    → Expects msg (codes part ++ rest)
    → check_part part msg ≡ done (advanced msg rest)
unfolding check_part
check_part_lem part msg rest x =
    let signed = x.signed in ground (arith, verify_part_lem msg (codes part) rest x.rest)

-- What an operation that writes `xs` makes of a message: the bytes are in the buffer unless a failure is
-- counted, the signature has moved on to `rest`, and all else is as it was.
pub record Put (msg : Message) (rest xs : List ℕ) (result : Message × Bool) : Type 0 where
  pub writes : Writes msg.buffer xs (result.0.buffer, result.1)
  pub same : result.0 ≡ record msg { buffer = result.0.buffer; sigverify = some rest }

pub Put-Expects :
    {msg : Message} (text rest xs : List ℕ) (result : Message × Bool)
    → Expects msg text
    → Put msg rest xs result
    → Expects result.0 rest
Put-Expects {msg} text rest xs result x p = record {
  signed = λ e. x.signed (sym (ap (λ (m : Message). m.signature) p.same) ∙ e);
  rest = ap (λ (m : Message). m.sigverify) p.same;
  valid = p.writes.effect.valid;
}

-- Where the answer is the writer's.
pub put-Put :
    (msg : Message) (rest xs : List ℕ) (r : Buffer × Bool)
    → Writes msg.buffer xs r
    → Put msg rest xs (put (advanced msg rest) r)
put-Put msg rest xs r w = record { writes = w; same = refl }

-- Where the answer is that no failure is counted.
pub put_all-Put :
    (msg : Message) (rest xs : List ℕ) (b : Buffer)
    → Wrote msg.buffer xs b
    → Put msg rest xs (put_all (advanced msg rest) b)
put_all-Put msg rest xs b w = record {
  writes = record {
    effect = w;
    accepted = λ e. let zero : b.failures ≡ 0 = ground arith in zero ∙ sym (w.written zero).0;
    refused = λ e. ground arith;
  };
  same = refl;
}
