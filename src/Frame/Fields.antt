-- ===== src/Frame/Fields.antt =====
-- `from_bytes` against the table of offsets in the module's documentation.
use wifipi.Prelude.{
  ℕ, zero, suc, ◌+◌, ◌*◌, ◌≤◌, ◌<◌, ◌≡◌, ◌↔◌, inl, inr, [], ◌∷◌, ltb, nat_eq, list_eq, take, drop,
  length, get_or, subst, arith, Bool-cases, ltb→ge, ge→ltb, drop-drop, length-take, length-drop,
  All-take, All-drop,
}
use wifipi.Prelude.Equality.{list_beq, list_beq_iff}
use wifipi.Prelude.Result.{ok}
use wifipi.Bytes.{Bytes, AreBytes, big, to_uint, from_uint, to_uint-from_uint}
use wifipi.Struct.{unpack, unpack_one}
use wifipi.Frame.{Packet, magic, header_fmt, from_header, from_bytes}

from_uint-take_one :
    (k : ℕ) (buf : Bytes) → k < length buf → from_uint big (take 1 (drop k buf)) ≡ get_or buf k 0
unfolding from_uint
from_uint-take_one zero [] h = absurd (omega arith)
from_uint-take_one zero (x ∷ xs) h = omega arith
from_uint-take_one (suc k) [] h = absurd (omega arith)
from_uint-take_one (suc k) (x ∷ xs) h = from_uint-take_one k xs (omega arith)

from_uint-take_two :
    (k : ℕ) (buf : Bytes)
    → k + 1 < length buf
    → from_uint big (take 2 (drop k buf)) ≡ 256 * get_or buf k 0 + get_or buf (suc k) 0
unfolding from_uint
from_uint-take_two zero [] h = absurd (omega arith)
from_uint-take_two zero (x ∷ []) h = absurd (omega arith)
from_uint-take_two zero (x ∷ y ∷ xs) h = omega arith
from_uint-take_two (suc k) [] h = absurd (omega arith)
from_uint-take_two (suc k) (x ∷ []) h = absurd (omega arith)
from_uint-take_two (suc k) (x ∷ y ∷ xs) h = from_uint-take_two k (y ∷ xs) (omega arith)

-- The header as the table of offsets reads it.
pub record HasFields (buf : Bytes) (p : Packet) : Type 0 where
  pub at_4 : p.version ≡ get_or buf 4 0
  pub at_5 : p.type ≡ get_or buf 5 0
  pub at_6 : p.flags ≡ get_or buf 6 0
  pub at_7 : p.hop_limit ≡ 256 * get_or buf 7 0 + get_or buf 8 0
  pub at_9 : p.packet_id ≡ take 4 (drop 9 buf)
  pub at_13 : p.src ≡ take 16 (drop 13 buf)
  pub at_29 : p.dst ≡ take 16 (drop 29 buf)
  pub at_45 : p.payload ≡ drop 45 buf

pub unpack_header :
    (buf : Bytes)
    → 45 ≤ length buf
    → unpack big header_fmt buf ≡ (
      take 4 buf,
      (
        get_or buf 4 0,
        (
          get_or buf 5 0,
          (
            get_or buf 6 0,
            (
              256 * get_or buf 7 0 + get_or buf 8 0,
              (
                from_uint big (take 4 (drop 9 buf)),
                (take 16 (drop 13 buf), (take 16 (drop 29 buf), tt)),
              ),
            ),
          ),
        ),
      ),
    )
unfolding unpack unpack_one
unpack_header buf h = rw (
  drop-drop 4 1 buf,
  drop-drop 5 1 buf,
  drop-drop 6 1 buf,
  drop-drop 7 2 buf,
  drop-drop 9 4 buf,
  drop-drop 13 16 buf,
  from_uint-take_one 4 buf (omega arith),
  from_uint-take_one 5 buf (omega arith),
  from_uint-take_one 6 buf (omega arith),
  from_uint-take_two 7 buf (omega arith),
)

pub id_read_back :
    (buf : Bytes)
    → AreBytes buf
    → 45 ≤ length buf
    → to_uint big 4 (from_uint big (take 4 (drop 9 buf))) ≡ take 4 (drop 9 buf)
id_read_back buf a h =
    let id = take 4 (drop 9 buf) in
    let n : length id ≡ 4 = omega (arith, length-take 4 (drop 9 buf), length-drop 9 buf) in
    subst (λ k. to_uint big k (from_uint big id) ≡ id) n
      (to_uint-from_uint big id
        (All-take (λ b. b < 256) 4 (drop 9 buf) (All-drop (λ b. b < 256) 9 buf a)))

-- What `from_header` makes of a header with the right magic and version.
pub header_lengths :
    (buf : Bytes)
    → 45 ≤ length buf
    → (length (take 4 (drop 9 buf)) ≡ 4)
      × (length (take 16 (drop 13 buf)) ≡ 16)
      × (length (take 16 (drop 29 buf)) ≡ 16)
header_lengths buf h = (
  omega (arith, length-take 4 (drop 9 buf), length-drop 9 buf),
  omega (arith, length-take 16 (drop 13 buf), length-drop 13 buf),
  omega (arith, length-take 16 (drop 29 buf), length-drop 29 buf),
)

-- `from_bytes` succeeds exactly on byte strings of at least 45 bytes that begin with the magic and
-- have the version 1 in byte 4.
pub from_bytes-ok_iff :
    (buf : Bytes)
    → AreBytes buf
    → ((p : Packet) × (from_bytes buf ≡ ok p))
      ↔ ((45 ≤ length buf) × (take 4 buf ≡ magic) × (get_or buf 4 0 ≡ 1))
unfolding from_bytes from_header list_beq
from_bytes-ok_iff buf a = (accepted, rebuilt)
  where
    accepted :
        (p : Packet) × (from_bytes buf ≡ ok p)
        → (45 ≤ length buf) × (take 4 buf ≡ magic) × (get_or buf 4 0 ≡ 1)
    accepted (p, h) = elim (Bool-cases (ltb (length buf) 45)) [
      | inl short ↦ absurd (ground arith)
      | inr enough ↦
          let long = ltb→ge (length buf) 45 enough in
          let body = unpack_header buf long in
          (long, ground (arith, body, list_beq_iff (take 4 buf) magic), ground (arith, body))
    ]

    rebuilt :
        (45 ≤ length buf) × (take 4 buf ≡ magic) × (get_or buf 4 0 ≡ 1)
        → (p : Packet) × (from_bytes buf ≡ ok p)
    rebuilt (long, m, v) = (
      record {
        type = get_or buf 5 0;
        flags = get_or buf 6 0;
        hop_limit = 256 * get_or buf 7 0 + get_or buf 8 0;
        packet_id = take 4 (drop 9 buf);
        src = take 16 (drop 13 buf);
        dst = take 16 (drop 29 buf);
        payload = drop 45 buf;
        version = 1;
      },
      rw (ge→ltb (length buf) 45 long, unpack_header buf long, m, v, id_read_back buf a long)
          (ground (arith, header_lengths buf long)),
    )

-- The packet that is read has its fields at the offsets of the table, the hop limit big-endian.
pub from_bytes-HasFields :
    (buf : Bytes) (p : Packet) → AreBytes buf → from_bytes buf ≡ ok p → HasFields buf p
unfolding from_bytes from_header
from_bytes-HasFields buf p a h = elim (Bool-cases (ltb (length buf) 45)) [
  | inl short ↦ absurd (ground arith)
  | inr enough ↦
      let long = ltb→ge (length buf) 45 enough in
      let body = unpack_header buf long in ground (arith, body, id_read_back buf a long)
]
