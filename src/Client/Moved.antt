-- ===== src/Client/Moved.antt =====
-- call_write and call_read of gck-rpc-module.c change nothing of a call state but its socket, which is still
-- open where they succeed.
use pkcs11_proxy.Common.{ℕ, ◌<◌, ◌≡◌, refl, Option, none, some, List, length, lt→ltb, done}
use pkcs11_proxy.Pkcs11.{ckr_ok}
use pkcs11_proxy.Client.{Socket, CallState, call_disconnect}
use pkcs11_proxy.Client.Transport.{
  write_loop, write_open, call_write, read_loop, read_open, call_read,
}
use pkcs11_proxy.Client.Delivered.{
  Wrote, all, part, closed, write_loop-Wrote, Got, whole, short, read_loop-Got,
}

pub record Moved (cs cs' : CallState) (ret : ℕ) : Type 0 where
  pub same : cs' ≡ record cs { socket = cs'.socket }
  pub still : ret ≡ ckr_ok → (s : Socket) × (cs'.socket ≡ some s)

write_open-Moved :
    (cs : CallState) (o : Option Socket) (bytes : List ℕ)
    → cs.socket ≡ o
    → Moved cs (write_open cs o bytes).0 (write_open cs o bytes).1
unfolding call_disconnect
write_open-Moved cs none bytes e = record { same = refl; still = λ bad. absurd cc }
write_open-Moved cs (some s) bytes e = settle (write_loop-Wrote cs.tls s.replies s bytes)
  where
    settle :
        Wrote s bytes (write_loop cs.tls s.replies s bytes)
        → Moved cs (write_open cs (some s) bytes).0 (write_open cs (some s) bytes).1
    settle (all p out same) = rw p (record { same = refl; still = λ ok. (_, refl) })
    settle (part rest p out same) = rw p (record { same = refl; still = λ bad. absurd cc })
    settle (closed p) = rw p (record { same = refl; still = λ bad. absurd cc })

pub call_write-Moved :
    (cs : CallState) (bytes : List ℕ)
    → 0 < length bytes
    → (r : CallState × ℕ) × (call_write cs bytes ≡ done r) × Moved cs r.0 r.1
unfolding call_write
call_write-Moved cs bytes h =
    rw (lt→ltb 0 (length bytes) h) (_, refl, write_open-Moved cs cs.socket bytes refl)

read_open-Moved :
    (cs : CallState) (o : Option Socket) (n : ℕ)
    → cs.socket ≡ o
    → Moved cs (read_open cs o n).0 (read_open cs o n).2
unfolding call_disconnect
read_open-Moved cs none n e = record { same = refl; still = λ bad. absurd cc }
read_open-Moved cs (some s) n e = settle (read_loop-Got cs.tls s.replies s n)
  where
    settle :
        Got s n (read_loop cs.tls s.replies s n)
        → Moved cs (read_open cs (some s) n).0 (read_open cs (some s) n).2
    settle (whole p size same out) = rw p (record { same = refl; still = λ ok. (_, refl) })
    settle (short {o = none} rest p same) = rw p (record { same = refl; still = λ bad. absurd cc })
    settle (short {o = some t} rest p same) =
        rw p (record { same = refl; still = λ bad. absurd cc })

pub call_read-Moved :
    (cs : CallState) (n : ℕ)
    → 0 < n
    → (r : CallState × List ℕ × ℕ) × (call_read cs n ≡ done r) × Moved cs r.0 r.2
unfolding call_read
call_read-Moved cs n h = rw (lt→ltb 0 n h) (_, refl, read_open-Moved cs cs.socket n refl)
