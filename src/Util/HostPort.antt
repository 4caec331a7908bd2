-- ===== src/Util/HostPort.antt =====
-- `gck_rpc_parse_host_port` of gck-rpc-util.c. A string is the list of its characters, without the NUL.
use pkcs11_proxy.Common.{
  ℕ, ◌≡◌, refl, ap, ◌≢◌, Bool, true, false, Option, none, some, List, [], ◌∷◌, ◌++◌, drop, ◌==◌,
  ==_refl, if◌then◌else◌, All, arith,
}

abbrev pub colon : ℕ
colon = 58

abbrev pub open_bracket : ℕ
open_bracket = 91

abbrev pub close_bracket : ℕ
close_bracket = 93

abbrev pub starts_with : ℕ → List ℕ → Bool
starts_with c [] = false
starts_with c (x ∷ xs) = x == c

abbrev pub in_front : ℕ → List ℕ × Option (List ℕ) → List ℕ × Option (List ℕ)
in_front x (host, port) = (x ∷ host, port)

-- `strchr`, and the NUL in place of what it finds: the string in front of the character, and the one
-- behind it if there is one.
unfoldable pub split_at : ℕ → List ℕ → List ℕ × Option (List ℕ)
split_at c [] = ([], none)
split_at c (x ∷ xs) = let rest = split_at c xs in if x == c then ([], some xs) else in_front x rest

-- Behind a bracket the colon of the port is passed over.
abbrev pub port_behind : Bool → Option (List ℕ) → Option (List ℕ)
port_behind is_ipv6 none = none
port_behind true (some port) = if starts_with colon port then some (drop 1 port) else some port
port_behind false (some port) = some port

abbrev pub parsed_by : Bool → List ℕ × Option (List ℕ) → List ℕ × Option (List ℕ)
parsed_by is_ipv6 (host, port) = (host, port_behind is_ipv6 port)

-- Host and port; `copied` says whether `strdup` has memory, without which the answer is 0.
unfoldable pub parse_host_port : List ℕ → Bool → Option (List ℕ × Option (List ℕ))
parse_host_port prefix copied =
    if copied
    then (if starts_with open_bracket prefix
        then some (parsed_by true (split_at close_bracket (drop 1 prefix)))
        else some (parsed_by false (split_at colon prefix)))
    else none

split_at-append :
    (c : ℕ) (xs ys : List ℕ) → All (λ x. x ≢ c) xs → split_at c (xs ++ (c ∷ ys)) ≡ (xs, some ys)
unfolding split_at
split_at-append c [] ys h = rw (==_refl c) refl
split_at-append c (x ∷ xs) ys (other, h) =
    let differs : (x == c) ≡ false = ground (arith, other) in
    rw differs (ap (in_front x) (split_at-append c xs ys h))

-- A host without colon and opening bracket, and a port behind a colon, are taken apart into the two, if
-- there is memory for the copy.
pub parse_host_port_plain :
    (first : ℕ) (host port : List ℕ)
    → first ≢ open_bracket
    → All (λ x. x ≢ colon) (first ∷ host)
    → parse_host_port (first ∷ (host ++ (colon ∷ port))) true ≡ some (first ∷ host, some port)
unfolding parse_host_port
parse_host_port_plain first host port h no_colon =
    let plain : (first == open_bracket) ≡ false = ground (arith, h) in
    rw plain
      (ap (λ r. some (parsed_by false r)) (split_at-append colon (first ∷ host) port no_colon))

-- A host in brackets, without closing bracket in it, and a port behind a colon, are taken apart into the
-- two, if there is memory for the copy. Colons in the host do no harm.
pub parse_host_port_bracketed :
    (host port : List ℕ)
    → All (λ x. x ≢ close_bracket) host
    → parse_host_port (open_bracket ∷ (host ++ (close_bracket ∷ colon ∷ port))) true
      ≡ some (host, some port)
unfolding parse_host_port
parse_host_port_bracketed host port no_bracket =
    ap (λ r. some (parsed_by true r)) (split_at-append close_bracket host (colon ∷ port) no_bracket)
