-- ===== src/Calls/Table.antt =====
-- The table and the enumeration agree.
use pkcs11_proxy.Common.{
  ℕ, zero, suc, ◌+◌, ◌<◌, ◌≡◌, refl, Bool, true, false, ◌&&◌, Option, none, some, List, [], ◌∷◌,
  length, subst, ◌==◌, arith,
}
use pkcs11_proxy.Calls.{Call, calls, call_max, get_elem?, request_of, response_of}

abbrev is_there : Option (List ℕ) → Bool
is_there none = false
is_there (some _) = true

-- The rows from number `i` on carry their own numbers, and both signatures.
numbered : ℕ → List Call → Bool
numbered i [] = true
numbered i (c ∷ cs) =
    c.call_id == i && (is_there c.request && (is_there c.response && numbered (suc i) cs))

-- What `assert (gck_rpc_calls[i].call_id == i)` tests of a row, with the two signatures that the
-- callers take from it.
pub record IsRow (i : ℕ) (c : Call) : Type 0 where
  pub own_number : c.call_id ≡ i
  pub request_there : is_there c.request ≡ true
  pub response_there : is_there c.response ≡ true

numbered-IsRow :
    (i : ℕ) (cs : List Call)
    → numbered i cs ≡ true
    → (k : ℕ) → k < length cs
    → (c : Call) × (get_elem? cs k ≡ some c) × IsRow (i + k) c
unfolding numbered get_elem?
numbered-IsRow i [] h k lt = absurd (omega arith)
numbered-IsRow i (c ∷ cs) h zero lt = (c, refl, ground arith)
numbered-IsRow i (c ∷ cs) h (suc k) lt =
    let (d, at, row) = numbered-IsRow (suc i) cs (ground arith) k (omega arith) in
    let place : suc i + k ≡ i + suc k = omega arith in (d, at, subst (λ n. IsRow n d) place row)

numbered-calls :
    (c : Call) × (cs : List Call) × (calls ≡ c ∷ cs) × (numbered 1 cs ≡ true) × (length cs ≡ 67)
unfolding calls numbered
numbered-calls = (_, _, refl, refl, refl)

-- Every call number above GCK_RPC_CALL_ERROR and below GCK_RPC_CALL_MAX has a row in the table that
-- carries this number, a request signature and a response signature.
pub calls-IsRow :
    (call_id : ℕ)
    → 0 < call_id
    → call_id < call_max
    → (c : Call) × (get_elem? calls call_id ≡ some c) × IsRow call_id c
unfolding get_elem?
calls-IsRow zero h lt = absurd (omega arith)
calls-IsRow (suc k) h lt =
    let (first, rest, e, n, size) = numbered-calls in
    let (c, at, row) = numbered-IsRow 1 rest n k (omega arith) in
    let place : 1 + k ≡ suc k = omega arith in (c, rw e at, subst (λ i. IsRow i c) place row)

text_of : (sig : Option (List ℕ)) → is_there sig ≡ true → (text : List ℕ) × (sig ≡ some text)
text_of none h = absurd cc
text_of (some text) h = (text, refl)

pub request_there :
    (call_id : ℕ)
    → 0 < call_id
    → call_id < call_max
    → (text : List ℕ) × (request_of call_id ≡ some text)
unfolding request_of
request_there call_id h lt =
    let (c, found, row) = calls-IsRow call_id h lt in rw found (text_of c.request row.request_there)

pub response_there :
    (call_id : ℕ)
    → 0 < call_id
    → call_id < call_max
    → (text : List ℕ) × (response_of call_id ≡ some text)
unfolding response_of
response_there call_id h lt =
    let (c, found, row) = calls-IsRow call_id h lt in
    rw found (text_of c.response row.response_there)
