-- ===== src/Rx/Delivery.antt =====
-- PA6TEth_ProcessRX of src/hw/rx.c: what the reader of a frame finds in its request.
use pa6t_eth.Base.{
  ℕ, ◌+◌, ◌≡◌, ◌≢◌, ◌∙◌, refl, List, ◌∷◌, true, Bool, Option, none, some, ==_refl, ==_ne,
}
use pa6t_eth.Machine.{World, call, call_, modify_req, modify_unit, load_bytes, ◌>>=◌}
use pa6t_eth.Machine.Triples.{Keeps, keeps_rules}
use pa6t_eth.Machine.Structs.{IoSana2Req, Opener, PendingRead, eth_addr_len}
use pa6t_eth.Machine.Calls.{Call, forbid, permit, free_vec}
use pa6t_eth.Requests.{read_list, read_list_of, find_opener, set_read_list, ReadList}
use pa6t_eth.Rx.Deliver.{
  RxFrame, no_buffer, run_copy_hook, copy_with, finish_read, fill_request, deliver_to, deliver_read,
  offer_read, dispatch_frame,
}

-- The fields of request `r` that a delivery fills, and the other requests.
record Shows (r len : ℕ) (src dst : List ℕ) (rs : ℕ → IoSana2Req) (w : World) : Type 0 where
  data_length : (w.reqs r).data_length ≡ len
  src_addr : (w.reqs r).src_addr ≡ src
  dst_addr : (w.reqs r).dst_addr ≡ dst
  others : (q : ℕ) → r ≢ q → w.reqs q ≡ rs q

module _ {r len : ℕ} {src dst : List ℕ} {rs : ℕ → IoSana2Req} where
  Shows-call : (c : Call) → Keeps (Shows r len src dst rs) (call c)
  unfolding ◌>>=◌
  Shows-call c = record {
    at = λ w h. record {
      data_length = h.data_length;
      src_addr = h.src_addr;
      dst_addr = h.dst_addr;
      others = h.others;
    };
  }

  Shows-modify_req :
      (f : IoSana2Req → IoSana2Req)
      → ((q : IoSana2Req) → (f q).data_length ≡ q.data_length)
      → ((q : IoSana2Req) → (f q).src_addr ≡ q.src_addr)
      → ((q : IoSana2Req) → (f q).dst_addr ≡ q.dst_addr)
      → Keeps (Shows r len src dst rs) (modify_req r f)
  unfolding ◌>>=◌
  Shows-modify_req f a b c = record {
    at = λ w h. record {
      data_length = rw (==_refl) (a (w.reqs r) ∙ h.data_length);
      src_addr = rw (==_refl) (b (w.reqs r) ∙ h.src_addr);
      dst_addr = rw (==_refl) (c (w.reqs r) ∙ h.dst_addr);
      others = λ q ne. rw (==_ne r q ne) (h.others q ne);
    };
  }

same_number : (n : ℕ) → n ≡ n
same_number n = refl

same_bytes : (l : List ℕ) → l ≡ l
same_bytes l = refl

ruleset shows_rules = (keeps_rules, Shows-call, Shows-modify_req, same_number, same_bytes)

module _ {r len : ℕ} {src dst : List ℕ} {rs : ℕ → IoSana2Req} where
  no_buffer-Shows : Keeps (Shows r len src dst rs) (no_buffer r)
  unfolding no_buffer
  no_buffer-Shows = search shows_rules depth 20 fits 4000

  run_copy_hook-Shows :
      (f : RxFrame) (cookie hook : ℕ)
      → Keeps (Shows r len src dst rs) (run_copy_hook f r cookie hook)
  unfolding run_copy_hook
  run_copy_hook-Shows f cookie hook = search (shows_rules, no_buffer-Shows) depth 20 fits 4000

  copy_with-Shows :
      (strict : Bool) (f : RxFrame) (cookie : ℕ) (op : Option Opener)
      → Keeps (Shows r len src dst rs) (copy_with strict f r cookie op)
  unfolding copy_with
  copy_with-Shows strict f cookie none = search shows_rules depth 20 fits 4000
  copy_with-Shows strict f cookie (some op) =
      search (shows_rules, no_buffer-Shows, run_copy_hook-Shows) depth 20 fits 4000

-- The request after the delivery of the frame, from a state `w` before it.
pub record Delivered (f : RxFrame) (r : ℕ) (w v : World) : Type 0 where
  pub length : (v.reqs r).data_length ≡ f.pay_len
  pub source : (v.reqs r).src_addr ≡ (load_bytes (f.eth_frame + 6) eth_addr_len w).0
  pub destination : (v.reqs r).dst_addr ≡ (load_bytes f.eth_frame eth_addr_len w).0
  pub cookie : (v.reqs r).ios2_data ≡ (w.reqs r).stat_data
  pub others : (q : ℕ) → r ≢ q → v.reqs q ≡ w.reqs q

deliver_read-Delivered : (f : RxFrame) (r : ℕ) (w : World) → Delivered f r w (deliver_read f r w).1
unfolding deliver_read deliver_to finish_read fill_request load_bytes ◌>>=◌
deliver_read-Delivered f r w =
    let src = (load_bytes (f.eth_frame + 6) eth_addr_len w).0 in
    let dst = (load_bytes f.eth_frame eth_addr_len w).0 in
    let filled = (modify_req r (fill_request f src dst) w).1 in
    let op = find_opener (w.reqs r).buffer_management w.unit.opener_list in
    let shown = (copy_with-Shows {rs = w.reqs} true f (w.reqs r).stat_data op).at filled (record {
      data_length = rw (==_refl) refl;
      src_addr = rw (==_refl) refl;
      dst_addr = rw (==_refl) refl;
      others = λ q ne. rw (==_ne r q ne) refl;
    }) in
    record {
      length = rw (==_refl) shown.data_length;
      source = rw (==_refl) shown.src_addr;
      destination = rw (==_refl) shown.dst_addr;
      cookie = rw (==_refl) refl;
      others = λ q ne. rw (==_ne r q ne) (shown.others q ne);
    }

offer_read-Delivered :
    (f : RxFrame) (j : ReadList) (pr : PendingRead) (rest : List PendingRead) (w : World)
    → Delivered f pr.ioreq w (offer_read f j (pr ∷ rest) w).1
unfolding offer_read load_bytes ◌>>=◌
offer_read-Delivered f j pr rest w =
    let w1 = (modify_unit (set_read_list j rest) w).1 in
    let w3 = (call_ (free_vec pr.at) (call_ permit w1).1).1 in
    let d = deliver_read-Delivered f pr.ioreq w3 in
    record {
      length = d.length;
      source = d.source;
      destination = d.destination;
      cookie = d.cookie;
      others = d.others;
    }

-- When a read of the frame's type waits, the first of them gets the frame: its request holds the
-- length of the payload, the two addresses as they stand in the frame, and its own cookie, whatever
-- the copy hook answers; no other request is touched.
pub dispatch_frame-Delivered :
    (f : RxFrame) (pr : PendingRead) (rest : List PendingRead) (w : World)
    → read_list (read_list_of f.ether_type) w.unit ≡ pr ∷ rest
    → Delivered f pr.ioreq w (dispatch_frame f w).1
unfolding dispatch_frame load_bytes ◌>>=◌
dispatch_frame-Delivered f pr rest w e =
    let d = offer_read-Delivered f (read_list_of f.ether_type) pr rest (call_ forbid w).1 in
    rw e (record {
      length = d.length;
      source = d.source;
      destination = d.destination;
      cookie = d.cookie;
      others = d.others;
    })
