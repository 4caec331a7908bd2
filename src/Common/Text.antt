-- ===== src/Common/Text.antt =====
-- C strings as lists of bytes.
use Prim.Native.Nat.{ℕ}
use Prim.Native.Char.{code}
use Prim.Native.String.{String}
use mathlib.Core.Path.{◌≡◌, refl}
use mathlib.Core.Option.{Option, none, some}
use mathlib.Core.List.{List, [], ◌∷◌, ◌++◌}
use native.Mathlib.Omega.{arith}
use pkcs11_proxy.Common.Tests.{◌==◌, if◌then◌else◌}

abbrev pub codes : String → List ℕ
codes String.[] = []
codes (String.◌∷◌ c s) = code c ∷ codes s

-- `strncmp (text, part, strlen (part)) == 0`, with what then follows in `text`.
unfoldable pub strip_prefix : List ℕ → List ℕ → Option (List ℕ)
strip_prefix [] text = some text
strip_prefix (p ∷ part) [] = none
strip_prefix (p ∷ part) (t ∷ text) = if p == t then strip_prefix part text else none

pub strip_prefix-append : (part rest : List ℕ) → strip_prefix part (part ++ rest) ≡ some rest
unfolding strip_prefix
strip_prefix-append [] rest = refl
strip_prefix-append (p ∷ part) rest = ground (arith, strip_prefix-append part rest)

-- A prefix that is found stands there.
pub strip_prefix-some :
    (part text rest : List ℕ) → strip_prefix part text ≡ some rest → text ≡ part ++ rest
unfolding strip_prefix
strip_prefix-some [] text rest e = ground arith
strip_prefix-some (p ∷ part) [] rest e = cc
strip_prefix-some (p ∷ part) (t ∷ text) rest e = ground (arith, strip_prefix-some part text rest)
