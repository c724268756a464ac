-- ===== src/Dns/Record.antt =====
-- labs/dnsserverlab-handout/dns.c: resource records in wire format. The host is little-endian, so
-- that `ntohs`, `htons` and `SWAP_ENDIAN_32` move a number to and from network order.
pub mod Written
pub mod Question
use cs_360_internet_programm.Base.{
  ℕ, zero, suc, ◌+◌, ◌*◌, ◌%◌, ◌^◌, Bool, true, false, not, ◌&&◌, Option, none, some, List, [], ◌∷◌,
  ◌++◌, length, get_elem?, ltb, ◌==◌, if◌then◌else◌,
}
use cs_360_internet_programm.Base.Run.{Run, ok, fault, out_of_fuel, ◌>>=◌, checked}
use cs_360_internet_programm.Base.Bytes.{write_at, slice, be16, be32}
use cs_360_internet_programm.Dns.Name.{compressed_val, name_ascii_to_wire, name_ascii_from_wire}

-- `dns_rr` as the database holds it; `rdata` is the array that the pointer leads to.
pub record Rr : Type 0 where
  pub name : List ℕ
  pub rr_type : ℕ
  pub rr_class : ℕ
  pub ttl : ℕ
  pub rdata_len : ℕ
  pub rdata : List ℕ

-- The fields that `rr_from_wire` sets only in a full record; `rdata` is an index into the wire.
pub record Tail : Type 0 where
  pub ttl : ℕ
  pub rdata_len : ℕ
  pub rdata : ℕ

-- `dns_rr` as `rr_from_wire` returns it.
pub record Parsed : Type 0 where
  pub name : List ℕ
  pub rr_type : ℕ
  pub rr_class : ℕ
  pub tail : Option Tail

-- The number that bytes in network order stand for.
abbrev pub from_be : ℕ → List ℕ → ℕ
from_be acc [] = acc
from_be acc (b ∷ bs) = from_be (acc * 256 + b) bs

unfoldable pub read_be : List ℕ → ℕ → ℕ → Run ℕ
unfolding slice
read_be wire offset n = do bs ← checked (slice wire offset n); ok (from_be 0 bs)

-- The read of time to live, data length and data pointer, and the index behind the data.
unfoldable pub read_tail : List ℕ → ℕ → Run (Tail × ℕ)
unfolding read_be
read_tail wire index = do
  ttl ← read_be wire index 4
  rdata_len ← read_be wire (index + 4) 2
  ok (record { ttl = ttl; rdata_len = rdata_len; rdata = index + 6 }, index + 6 + rdata_len)

-- The end of `rr_from_wire`: a question has no more fields.
unfoldable pub finish_rr : Bool → List ℕ → ℕ → Parsed → Run (Parsed × ℕ)
unfolding read_tail
finish_rr true wire index rr = ok (rr, index)
finish_rr false wire index rr = do
  (tail, i) ← read_tail wire index
  ok (record rr { tail = some tail }, i)

unfoldable pub rr_from_wire : ℕ → List ℕ → ℕ → Bool → Run (Parsed × ℕ)
rr_from_wire fuel wire index query_only = do
  mark ← checked (get_elem? wire index)
  let start = if ltb mark compressed_val && not query_only then index + 11 else index
  (name, i) ← name_ascii_from_wire fuel wire start
  rr_type ← read_be wire i 2
  rr_class ← read_be wire (i + 2) 2
  finish_rr query_only wire (i + 4)
      (record { name = name; rr_type = rr_type; rr_class = rr_class; tail = none })

-- The part of `rr_to_wire` behind the name, from `offset` on.
unfoldable pub write_fields : Rr → List ℕ → ℕ → Run (List ℕ)
unfolding write_at slice
write_fields rr buffer offset = do
  b ← checked (write_at buffer offset (be16 rr.rr_type))
  b ← checked (write_at b (offset + 2) (be16 rr.rr_class))
  b ← checked (write_at b (offset + 4) (be32 rr.ttl))
  b ← checked (write_at b (offset + 8) (be16 rr.rdata_len))
  bytes ← checked (slice rr.rdata 0 rr.rdata_len)
  checked (write_at b (offset + 10) bytes)

-- `rr_to_wire(rr, buffer + start, query_only)`: the array and the length. The flag is not used.
unfoldable pub rr_to_wire : Rr → List ℕ → ℕ → Bool → Run (List ℕ × ℕ)
rr_to_wire rr buffer start query_only = do
  (b, name_len) ← name_ascii_to_wire rr.name buffer start
  let len = if name_len == length rr.name then name_len + 1 else name_len
  b ← write_fields rr b (start + len)
  ok (b, len + 10 + rr.rdata_len)
