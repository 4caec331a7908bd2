-- ===== src/Client/Down.antt =====
-- The settings of a module of gck-rpc-module.c that is down, from the arguments and the environment.
use pkcs11_proxy.Common.{
  ℕ, ◌-◌, ◌<◌, ◌≤◌, ◌≡◌, refl, sym, ap, ◌∙◌, subst, Bool, true, false, ◌||◌, Bool-cases,
  Option-cases, inl, inr, Option, none, some, List, [], ◌∷◌, ◌++◌, length, length-append,
  length-take, list_eq, codes, All, arith,
}
use pkcs11_proxy.Message.Write.{items}
use pkcs11_proxy.Client.Arguments.{
  fit, cut, max_path_len, parse_argument, parse_each, parse_arguments, arguments_of,
}
use pkcs11_proxy.Client.{CallState, Module, max_call_state_pool}
use pkcs11_proxy.Client.Invariant.{IsPool, Ready}
use pkcs11_proxy.Client.Session.{is_tcp_path, is_tls_path}
use pkcs11_proxy.Client.Initialize.{is_set, env_path}

-- A module that is down, with its pool in order.
pub record IsDown (m : Module) : Type 0 where
  pub pool : IsPool m
  pub off : m.initialized ≡ false

-- The pool as it is, in a module with other settings.
pub same_pool :
    {m : Module} (m' : Module)
    → IsDown m
    → m'.n_call_state_pool ≡ m.n_call_state_pool
    → m'.call_state_pool ≡ m.call_state_pool
    → m'.initialized ≡ m.initialized
    → IsDown m'
same_pool {m} m' d count pool state = record {
  pool = record {
    counted = count ∙ d.pool.counted ∙ ap length (sym pool);
    bounded =
        subst (λ (l : List CallState). length l ≤ max_call_state_pool) (sym pool) d.pool.bounded;
    ready = subst (All Ready) (sym pool) d.pool.ready;
    path = λ bad. cc (state, d.off);
  };
  off = state ∙ d.off;
}

pub env_path_given : (o : Option (List ℕ)) → is_set o ≡ true → 0 < length (env_path (items o))
env_path_given none h = absurd cc
env_path_given (some text) h = elim (Bool-cases (is_tcp_path text || is_tls_path text)) [
  | inl remote ↦ rw remote (short text (ground arith))
  | inr local ↦
      rw local
        (short (text ++ codes ".pkcs11") (omega (arith, length-append text (codes ".pkcs11"))))
]
  where
    short : (xs : List ℕ) → 0 < length xs → 0 < length (fit xs)
    short xs h = omega (arith, length-take (max_path_len - 1) xs)

parse_argument-IsDown :
    (null_text : List ℕ) (m : Module) (arg : List ℕ)
    → IsDown m
    → IsDown (parse_argument null_text m arg)
unfolding parse_argument
parse_argument-IsDown null_text m arg d = elim (Bool-cases (list_eq (cut arg).0 (codes "socket"))) [
  | inl e ↦ rw e (same_pool _ d refl refl refl)
  | inr e ↦ elim (Bool-cases (list_eq (cut arg).0 (codes "tls_psk_file"))) [
    | inl f ↦ rw (e, f) (same_pool _ d refl refl refl)
    | inr f ↦ rw (e, f) d
  ]
]

parse_each-IsDown :
    (null_text : List ℕ) (args : List (List ℕ)) (m : Module)
    → IsDown m
    → IsDown (parse_each null_text m args)
parse_each-IsDown null_text [] m d = d
parse_each-IsDown null_text (arg ∷ rest) m d =
    parse_each-IsDown null_text rest (parse_argument null_text m arg)
      (parse_argument-IsDown null_text m arg d)

pub parsed-IsDown :
    (null_text : List ℕ) (given : Bool) (m m1 : Module) (text : Option (List ℕ))
    → IsDown m
    → parse_arguments null_text given m text ≡ some m1
    → IsDown m1
unfolding parse_arguments
parsed-IsDown null_text given m m1 none d e = let same : m ≡ m1 = cc in subst IsDown same d
parsed-IsDown null_text false m m1 (some text) d e = let same : m ≡ m1 = cc in subst IsDown same d
parsed-IsDown null_text true m m1 (some text) d e = elim (Option-cases (arguments_of text)) [
  | inl f ↦ absurd cc
  | inr (args, f) ↦
      let same : parse_each null_text m args ≡ m1 = cc in
      subst IsDown same (parse_each-IsDown null_text args m d)
]
