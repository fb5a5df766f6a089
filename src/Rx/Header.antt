-- ===== src/Rx/Header.antt =====
-- The Ethernet header that PA6TEth_TransmitPacket of src/hw/tx.c builds, as PA6TEth_ProcessRX of
-- src/hw/rx.c reads it.
use mathlib.Core.Path.{ap₂}
use mathlib.Core.List.{append_assoc}
use pa6t_eth.Base.{
  ℕ, suc, zero, ◌+◌, ◌-◌, ◌*◌, ◌/◌, ◌%◌, ◌^◌, ◌≡◌, ◌<◌, ◌∙◌, refl, sym, ap, List, [], ◌∷◌, ◌++◌,
  length, take, get_or, arith, bit_or, bit_and, inc32,
}
use pa6t_eth.Base.Bits.{bit_and-255, join}
use pa6t_eth.Regs.Shift.{shr}
use pa6t_eth.Machine.{World, load_bytes, load_byte, store_bytes, modify_unit, ◌>>=◌}
use pa6t_eth.Machine.Bytes.{
  IsBytes, load_bytes-store, length-append, store_bytes-unit, store_bytes-reqs,
}
use pa6t_eth.Machine.Structs.{EthUnit, PendingRead, IoSana2Req}
use pa6t_eth.Requests.{ReadList, ipv4, arp, other, read_list, read_list_of}
use pa6t_eth.Hw.Tx.{eth_header}
use pa6t_eth.Rx.Deliver.{RxFrame}
use pa6t_eth.Rx.Process.{rx_accept}
use pa6t_eth.Rx.Delivery.{dispatch_frame-Delivered}

take-length : (l : List ℕ) (n : ℕ) → length l ≡ n → take n l ≡ l
take-length [] zero e = refl
take-length [] (suc n) e = refl
take-length (x ∷ xs) zero e = absurd (omega (arith, e))
take-length (x ∷ xs) (suc n) e = ap (λ l. x ∷ l) (take-length xs n (omega (arith, e)))

-- The two bytes of the type, high byte first.
abbrev type_bytes : ℕ → List ℕ
type_bytes etype = (shr etype 8 % 2 ^ 8) ∷ bit_and etype 0xff ∷ []

eth_header-eq :
    (dst src : List ℕ) (etype : ℕ)
    → length dst ≡ 6
    → length src ≡ 6
    → eth_header dst src etype ≡ dst ++ (src ++ type_bytes etype)
unfolding eth_header
eth_header-eq dst src etype d s =
    ap₂ (λ x y. x ++ (y ++ type_bytes etype)) (take-length dst 6 d) (take-length src 6 s)

-- The type is put together again.
type-joined :
    (etype : ℕ) → etype < 2 ^ 16 → bit_or (shr etype 8 % 2 ^ 8 * 2 ^ 8) (bit_and etype 0xff) ≡ etype
type-joined etype h =
    let low = bit_and-255 etype in
    join 8 (etype / 256) (etype % 256) _ _ (omega arith) (omega (arith, low)) (omega arith)
    ∙ omega arith

module _ (dst src : List ℕ) (etype p : ℕ) (w : World) (d : length dst ≡ 6)
    (s : length src ≡ 6) where
  -- With the header in memory.
  abbrev with_header : World
  with_header = (store_bytes p (eth_header dst src etype) w).1

  abbrev with_parts : World
  with_parts = (store_bytes p (dst ++ (src ++ type_bytes etype)) w).1

  same_world : with_header ≡ with_parts
  same_world = ap (λ l. (store_bytes p l w).1) (eth_header-eq dst src etype d s)

  destination-read : IsBytes dst → (load_bytes p 6 with_header).0 ≡ dst
  destination-read b =
      let start : p + 0 ≡ p = omega arith in
      ap (λ v. (load_bytes p 6 v).0) same_world
      ∙ ap₂ (λ q n. (load_bytes q n with_parts).0) (sym start) (sym d)
      ∙ load_bytes-store [] dst (src ++ type_bytes etype) p w b

  source-read : IsBytes src → (load_bytes (p + 6) 6 with_header).0 ≡ src
  source-read b =
      ap (λ v. (load_bytes (p + 6) 6 v).0) same_world
      ∙ ap₂ (λ q n. (load_bytes (p + q) n with_parts).0) (sym d) (sym s)
      ∙ load_bytes-store dst src (type_bytes etype) p w b

  type_bytes-read : (load_bytes (p + 12) 2 with_header).0 ≡ type_bytes etype
  type_bytes-read =
      let l : List ℕ = (dst ++ src) ++ (type_bytes etype ++ []) in
      let e : eth_header dst src etype ≡ l =
        eth_header-eq dst src etype d s ∙ sym (append_assoc dst src (type_bytes etype)) in
      let twelve : 12 ≡ length (dst ++ src) = omega (arith, length-append dst src) in
      ap (λ x. (load_bytes (p + 12) 2 (store_bytes p x w).1).0) e
      ∙ ap (λ q. (load_bytes (p + q) 2 (store_bytes p l w).1).0) twelve
      ∙ load_bytes-store (dst ++ src) (type_bytes etype) [] p w
          (omega arith, (omega (arith, bit_and-255 etype), tt))

  type-read :
      etype < 2 ^ 16
      → bit_or ((load_byte (p + 12) with_header).0 * 2 ^ 8) (load_byte (p + 13) with_header).0
        ≡ etype
  unfolding load_bytes ◌>>=◌
  type-read b =
      let hi = ap (λ l. get_or l 0 0) type_bytes-read in
      let next : p + 12 + 1 ≡ p + 13 = omega arith in
      let lo =
        ap (λ q. (load_byte q with_header).0) (sym next) ∙ ap (λ l. get_or l 1 0) type_bytes-read in
      ap₂ (λ x y. bit_or (x * 2 ^ 8) y) hi lo ∙ type-joined etype b

-- What a request holds after a delivery.
pub record Told (r : ℕ) (dst src : List ℕ) (len cookie : ℕ) (rs : ℕ → IoSana2Req) : Type 0 where
  pub destination : (rs r).dst_addr ≡ dst
  pub source : (rs r).src_addr ≡ src
  pub payload : (rs r).data_length ≡ len
  pub cookie_back : (rs r).ios2_data ≡ cookie

read_list-counted :
    (j : ReadList) (u : EthUnit) (n : ℕ) → read_list j (record u { stat_rx = n }) ≡ read_list j u
read_list-counted ipv4 u n = refl
read_list-counted arp u n = refl
read_list-counted other u n = refl

-- The type that stands in a frame.
abbrev type_at : ℕ → World → ℕ
type_at p v = bit_or ((load_byte (p + 12) v).0 * 2 ^ 8) (load_byte (p + 13) v).0

rx_accept-Told :
    (p macrx len : ℕ) (pr : PendingRead) (rest : List PendingRead) (v : World)
    → read_list (read_list_of (type_at p v)) v.unit ≡ pr ∷ rest
    → Told pr.ioreq
        (load_bytes p 6 v).0
        (load_bytes (p + 6) 6 v).0
        (len - 14)
        (v.reqs pr.ioreq).stat_data
        (rx_accept macrx p len v).1.reqs
unfolding rx_accept load_bytes ◌>>=◌
rx_accept-Told p macrx len pr rest v e =
    let f : RxFrame = record {
      macrx = macrx;
      eth_frame = p;
      ether_type = type_at p v;
      pay_len = len - 14;
    } in
    let counted = (modify_unit (λ u. record u { stat_rx = inc32 u.stat_rx }) v).1 in
    let found = read_list-counted (read_list_of (type_at p v)) v.unit (inc32 v.unit.stat_rx) ∙ e in
    let d = dispatch_frame-Delivered f pr rest counted found in
    record {
      destination = d.destination;
      source = d.source;
      payload = d.length;
      cookie_back = d.cookie;
    }

-- What a frame's header says is what its receiver is told. Where the 14 bytes that
-- PA6TEth_TransmitPacket builds from two addresses and a type stand in the buffer of a received
-- frame, and a read of that type waits: the first of the reads of the type is told the destination
-- and the source of the header, and the length of the frame less the header, and gets its cookie.
pub header-round_trip :
    (dst src : List ℕ) (etype p macrx len : ℕ) (pr : PendingRead) (rest : List PendingRead)
    (w : World)
    → length dst ≡ 6
    → length src ≡ 6
    → IsBytes dst
    → IsBytes src
    → etype < 2 ^ 16
    → read_list (read_list_of etype) w.unit ≡ pr ∷ rest
    → Told pr.ioreq dst src
        (len - 14)
        (w.reqs pr.ioreq).stat_data
        ((rx_accept macrx p len (store_bytes p (eth_header dst src etype) w).1).1.reqs)
header-round_trip dst src etype p macrx len pr rest w d s bd bs t r =
    let v = (store_bytes p (eth_header dst src etype) w).1 in
    let l = eth_header dst src etype in
    let waits : read_list (read_list_of (type_at p v)) v.unit ≡ pr ∷ rest =
      ap₂ (λ x u. read_list (read_list_of x) u) (type-read dst src etype p w d s t)
        (store_bytes-unit l p w)
      ∙ r in
    let told = rx_accept-Told p macrx len pr rest v waits in
    record {
      destination = told.destination ∙ destination-read dst src etype p w d s bd;
      source = told.source ∙ source-read dst src etype p w d s bs;
      payload = told.payload;
      cookie_back = told.cookie_back ∙ ap (λ rs. (rs pr.ioreq).stat_data) (store_bytes-reqs l p w);
    }
