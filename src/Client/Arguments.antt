-- ===== src/Client/Arguments.antt =====
-- gck-rpc-module.c, "MODULE ARGUMENTS": the settings that come as a text with C_Initialize. The text is
-- taken apart in place, in a copy of it.
use pkcs11_proxy.Common.{
  ℕ, zero, suc, ◌+◌, ◌-◌, Bool, ◌&&◌, ◌||◌, Option, none, some, List, [], ◌∷◌, ◌++◌, length, take,
  set, codes, list_eq, ltb, leb, ◌==◌, if◌then◌else◌,
}
use pkcs11_proxy.Client.{Module}

-- MAXPATHLEN
abbrev pub max_path_len : ℕ
max_path_len = 4096

-- `snprintf (path, sizeof (path), "%s", text)`
abbrev pub fit : List ℕ → List ℕ
fit text = take (max_path_len - 1) text

-- The bytes in front of the first colon or equals sign, and those behind it if there is one.
unfoldable pub cut : List ℕ → List ℕ × Option (List ℕ)
cut [] = ([], none)
cut (c ∷ text) =
    let (front, value) = cut text in
    if c == b':' || c == b'=' then ([], some text) else (c ∷ front, value)

-- What `snprintf` prints for NULL is up to the C library.
abbrev pub printed : List ℕ → Option (List ℕ) → List ℕ
printed null_text none = null_text
printed null_text (some value) = value

-- `arg` is the text at the pointer, up to its end.
unfoldable pub parse_argument : List ℕ → Module → List ℕ → Module
parse_argument null_text m arg =
    let (name, value) = cut arg in
    let text = fit (printed null_text value) in
    if list_eq name (codes "socket")
    then record m { socket_path = text }
    else if list_eq name (codes "tls_psk_file")
    then record m { tls_psk_key_filename = text }
    else m

-- The loop's variables: the copy with the 0 at its end, the pointers into it as indices, the quote that
-- is open (0 for none), and the arguments that were passed to parse_argument.
pub record Scan : Type 0 where
  pub dup : List ℕ
  pub src : ℕ
  pub at : ℕ
  pub arg : ℕ
  pub quote : ℕ
  pub parsed : List (List ℕ)

-- The text at an index, up to its end.
unfoldable pub text_at : List ℕ → ℕ → List ℕ
text_at [] i = []
text_at (c ∷ dup) zero = if c == 0 then [] else c ∷ text_at dup zero
text_at (c ∷ dup) (suc i) = text_at dup i

abbrev pub byte_at : List ℕ → ℕ → Option ℕ
byte_at [] i = none
byte_at (c ∷ dup) zero = some c
byte_at (c ∷ dup) (suc i) = byte_at dup i

-- `*at++ = c`; `none` is a write behind the end of the copy.
unfoldable pub put : Scan → ℕ → Option Scan
put s c =
    if ltb s.at (length s.dup)
    then some (record s { dup = set s.dup s.at c; at = s.at + 1 })
    else none

abbrev pub next : Scan → Scan
next s = record s { src = s.src + 1 }

-- `parse_argument (arg)`
abbrev pub pass : Scan → Scan
pass s = record s { parsed = s.parsed ++ text_at s.dup s.arg ∷ [] }

-- A step goes on, or is the end of the loop.
pub data Scanned : Type 0 where
  going ended : Scan → Scanned
  overrun : Scanned

abbrev pub and_put : ℕ → Option Scan → Option Scan
and_put c none = none
and_put c (some s) = put s c

abbrev pub go_on : Option Scan → Scanned
go_on none = overrun
go_on (some s) = going (next s)

-- `*at++ = *src`, behind which the loop goes on.
abbrev pub copy_byte : Option ℕ → Scan → Scanned
copy_byte none s = overrun
copy_byte (some c) s = go_on (put s c)

-- Behind a backslash in quotes: it is written twice unless the quote follows.
abbrev pub in_quotes : Scan → Option ℕ → Scanned
in_quotes s none = overrun
in_quotes s (some c) =
    if c == 0
    then ended s
    else if c == s.quote
    then go_on (put s c)
    else (let doubled = put s b'\\' in
        elim doubled [ none ↦ overrun | some s' ↦ copy_byte (byte_at s'.dup s'.src) s' ])

-- Behind a backslash outside of quotes.
abbrev pub escaped : Scan → Option ℕ → Scanned
escaped s none = overrun
escaped s (some c) = if c == 0 then ended s else go_on (put s c)

-- `*at++ = *src++`, and then by what follows.
abbrev pub behind_backslash : (Scan → Option ℕ → Scanned) → Option Scan → Scanned
behind_backslash k none = overrun
behind_backslash k (some s) = let s' = next s in k s' (byte_at s'.dup s'.src)

abbrev pub is_space : ℕ → Bool
is_space c = c == 32 || leb 9 c && leb c 13

-- The end of an argument: `*at = 0`, and the next one begins where this one ended.
abbrev pub end_argument : Scan → Scanned
end_argument s =
    let s' = pass (record s { dup = set s.dup s.at 0 }) in
    if ltb s.at (length s.dup) then going (next (record s' { arg = s.at })) else overrun

unfoldable pub scan_byte : Scan → ℕ → Scanned
scan_byte s c =
    if s.quote == c
    then going (next (record s { quote = 0 }))
    else if ltb 0 s.quote
    then (if c == b'\\' then behind_backslash in_quotes (put s c) else go_on (put s c))
    else if is_space c
    then end_argument s
    else if c == b'\'' || c == b'"'
    then going (next (record s { quote = c }))
    else if c == b'\\'
    then behind_backslash escaped (put s c)
    else go_on (put s c)

-- Behind the loop the last argument is parsed, up to the next 0 in the copy.
abbrev pub last_argument : Scan → Scan
last_argument s = if s.at == s.arg then s else pass s

-- The loop, for at most so many rounds; `none` is an access behind the end of the copy.
unfoldable pub scan : ℕ → Scan → Option (List (List ℕ))
scan zero s = none
scan (suc rounds) s = elim (byte_at s.dup s.src) [
  | none ↦ none
  | some c ↦ elim c [
    | zero ↦ some (last_argument s).parsed
    | suc b ↦ elim (scan_byte s (suc b)) [
      | going s' ↦ scan rounds s'
      | ended s' ↦ some s'.parsed
      | overrun ↦ none
    ]
  ]
]

-- The arguments that parse_arguments passes on, in order. Each round goes to a later byte of the copy.
unfoldable pub arguments_of : List ℕ → Option (List (List ℕ))
arguments_of text =
    scan (length text + 2)
      (record { dup = text ++ 0 ∷ []; src = 0; at = 0; arg = 0; quote = 0; parsed = [] })

abbrev pub parse_each : List ℕ → Module → List (List ℕ) → Module
parse_each null_text m [] = m
parse_each null_text m (arg ∷ rest) = parse_each null_text (parse_argument null_text m arg) rest

-- `none` is a memory error. `dup_given` says whether `strdup` has memory.
unfoldable pub parse_arguments : List ℕ → Bool → Module → Option (List ℕ) → Option Module
parse_arguments null_text dup_given m none = some m
parse_arguments null_text dup_given m (some text) =
    if dup_given
    then (elim (arguments_of text) [ none ↦ none | some args ↦ some (parse_each null_text m args) ])
    else some m
