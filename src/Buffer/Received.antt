-- ===== src/Buffer/Received.antt =====
-- The way both ends receive a message: the caller reserves room in an emptied buffer, has the bytes written
-- into the block, and lets egg_buffer_add_empty count them in.
use pkcs11_proxy.Common.{
  ℕ, zero, suc, ◌+◌, ◌^◌, ◌<◌, ◌≤◌, ◌≡◌, refl, sym, ap, ◌∙◌, subst, true, List, [], ◌++◌, length,
  take, take-write_at, write_at, ltb, All, IsByte, add_size, arith,
}
use pkcs11_proxy.Buffer.{Buffer, reserve, add_empty}
use pkcs11_proxy.Wire.{be32}
use pkcs11_proxy.Wire.RoundTrip.{be32-IsByte}
use pkcs11_proxy.Buffer.Ints.{decode_uint32}
use pkcs11_proxy.Buffer.Unread.{decode_uint32_lem}
use pkcs11_proxy.Buffer.Inv.{IsValid, contents}
use pkcs11_proxy.Buffer.Reserve.{Reserved, reserve-Reserved}
use pkcs11_proxy.Buffer.Wrote.{filled, filled-Wrote}

-- The buffer behind the two steps, from the one with room in it.
abbrev pub arrived : Buffer → List ℕ → Buffer
arrived room bytes = (add_empty (record room { buf = write_at room.buf 0 bytes }) (length bytes)).0

add_empty_roomy :
    (b : Buffer) (n : ℕ)
    → ltb (add_size b.len n) b.allocated_len ≡ true
    → (add_empty b n).0 ≡ record b { len = add_size b.len n }
unfolding add_empty reserve
add_empty_roomy b n h = rw h refl

arrived-filled :
    (room : Buffer) (bytes : List ℕ)
    → room.len ≡ 0
    → room.allocated_len < 2 ^ 63
    → length bytes < room.allocated_len
    → arrived room bytes ≡ filled bytes room
arrived-filled room bytes empty bounded fits =
    let size : add_size room.len (length bytes) ≡ room.len + length bytes = omega arith in
    add_empty_roomy (record room { buf = write_at room.buf 0 bytes }) (length bytes) (ground arith)
    ∙ ap (λ n. record room { buf = write_at room.buf 0 bytes; len = n }) size
    ∙ ap (λ i. record room { buf = write_at room.buf i bytes; len = room.len + length bytes })
        (sym empty)

-- Where there was room for the bytes and one more, they are the data of a valid buffer.
pub arrived_lem :
    (b : Buffer) (bytes : List ℕ)
    → IsValid b
    → b.len ≡ 0
    → All IsByte bytes
    → (reserve b (length bytes)).1 ≡ true
    → length bytes < (reserve b (length bytes)).0.allocated_len
    → length bytes ≤ 2 ^ 62
    → let r = arrived (reserve b (length bytes)).0 bytes in
      IsValid r
      × (contents r ≡ bytes)
      × ((reserve b (length bytes)).0.failures ≡ b.failures)
      × (r.failures ≡ b.failures)
arrived_lem b bytes v empty all_bytes given fits small =
    let room = (reserve b (length bytes)).0 in
    let total : b.len + length bytes ≡ length bytes = omega arith in
    let reserved : Reserved b (b.len + length bytes) room true =
      subst (λ n. Reserved b n room true) (sym total)
        (subst (Reserved b (length bytes) room) given
          (reserve-Reserved (length bytes) v (omega arith))) in
    let w = filled-Wrote bytes v all_bytes reserved in
    let same = arrived-filled room bytes (reserved.same_len ∙ empty) reserved.valid.bounded fits in
    let kept : room.failures ≡ b.failures = (reserved.room refl).1 in
    subst
      (λ (r : Buffer).
        IsValid r × (contents r ≡ bytes) × (room.failures ≡ b.failures) × (r.failures ≡ b.failures))
      (sym same) (w.valid, all_there room reserved, kept, kept)
  where
    nothing : (n : ℕ) (xs : List ℕ) → n ≡ 0 → take n xs ≡ []
    nothing zero xs e = refl
    nothing (suc n) xs e = absurd cc

    all_there :
        (room : Buffer)
        → Reserved b (b.len + length bytes) room true
        → contents (filled bytes room) ≡ bytes
    all_there room reserved =
        take-write_at room.buf room.len (room.len + length bytes) bytes refl
          (omega (arith, reserved.same_len, (reserved.room refl).0, reserved.valid.sized))
        ∙ ap (λ l. l ++ bytes) (reserved.same_contents ∙ nothing b.len b.buf empty)

-- The length in front of a message.
pub decode_uint32-be32 : (v : ℕ) → v < 2 ^ 32 → decode_uint32 (be32 v) ≡ v
decode_uint32-be32 v h = decode_uint32_lem (be32 v) (be32-IsByte v) ∙ omega arith
