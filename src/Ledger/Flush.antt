-- ===== src/Ledger/Flush.antt =====
-- What a flush does to the unit: it empties the lists and leaves every other field.
use pa6t_eth.Base.{ℕ, ◌≡◌, ◌∙◌, ap, refl, List, [], ◌∷◌, Bool}
use pa6t_eth.Machine.{World, M, ◌>>=◌}
use pa6t_eth.Machine.Structs.{EthUnit, IoError, PendingRead, ioerr_aborted}
use pa6t_eth.Requests.{
  ReadList, ipv4, arp, other, read_list, set_read_list, flush_read_list, sweep, sweep_events,
  flush_orphan, flush_list, flush_read_queue, abort_event, flush_all_pending,
}
use pa6t_eth.Ledger.Queues.{
  Serves, sweep-unit, flush_orphan-Serves, abort_event-Serves, fail_request-unit, read_list-set,
}

set_read_list-twice :
    (j : ReadList) (l m : List PendingRead) (u : EthUnit)
    → set_read_list j l (set_read_list j m u) ≡ set_read_list j l u
set_read_list-twice ipv4 l m u = refl
set_read_list-twice arp l m u = refl
set_read_list-twice other l m u = refl

set_read_list-same :
    (j : ReadList) (l : List PendingRead) (u : EthUnit)
    → read_list j u ≡ l
    → u ≡ set_read_list j l u
set_read_list-same ipv4 l u e = ap (λ m. set_read_list ipv4 m u) e
set_read_list-same arp l u e = ap (λ m. set_read_list arp m u) e
set_read_list-same other l u e = ap (λ m. set_read_list other m u) e

flush_read_list-unit :
    (j : ReadList) (e : IoError) (prs : List PendingRead) (w : World)
    → read_list j w.unit ≡ prs
    → (flush_read_list j e prs w).1.unit ≡ set_read_list j [] w.unit
unfolding flush_read_list ◌>>=◌
flush_read_list-unit j e [] w h = set_read_list-same j [] w.unit h
flush_read_list-unit j e (pr ∷ prs) w h =
    flush_read_list-unit j e prs _
      (ap (read_list j) (fail_request-unit pr.ioreq e _) ∙ read_list-set j prs w.unit)
    ∙ ap (set_read_list j []) (fail_request-unit pr.ioreq e _)
    ∙ set_read_list-twice j [] prs w.unit

flush_list-unit :
    (j : ReadList) (e : IoError) (w : World) → (flush_list j e w).1.unit ≡ set_read_list j [] w.unit
unfolding flush_list ◌>>=◌
flush_list-unit j e w = flush_read_list-unit j e (read_list j w.unit) w refl

abbrev set_events : List ℕ → EthUnit → EthUnit
set_events l u = record u { event_list = l }

pub sweep_events-unit :
    (act : ℕ → M Bool)
    → Serves act
    → (w : World)
    → (sweep_events act w).1.unit
      ≡ record (w.unit) { event_list = (sweep act w.unit.event_list w).0 }
unfolding sweep_events ◌>>=◌
sweep_events-unit act s w =
    ap (set_events (sweep act w.unit.event_list w).0) (sweep-unit act s w.unit.event_list w)

-- The unit with its read lists empty and its event list as given.
abbrev pub flushed : EthUnit → List ℕ → EthUnit
flushed u l = record u {
  read_list_ipv4 = [];
  read_list_arp = [];
  read_list_other = [];
  event_list = l;
}

flushed-by :
    (l : List ℕ) (u v : EthUnit)
    → v ≡ set_read_list other [] (set_read_list arp [] (set_read_list ipv4 [] u))
    → set_events l v ≡ flushed u l
flushed-by l u v e = ap (set_events l) e

lists_flushed :
    (e : IoError) (w : World)
    → (flush_list other e (flush_list arp e (flush_list ipv4 e w).1).1).1.unit
      ≡ set_read_list other [] (set_read_list arp [] (set_read_list ipv4 [] w.unit))
lists_flushed e w =
    flush_list-unit other e (flush_list arp e (flush_list ipv4 e w).1).1
    ∙ ap (set_read_list other []) (
        flush_list-unit arp e (flush_list ipv4 e w).1
        ∙ ap (set_read_list arp []) (flush_list-unit ipv4 e w))

pub flush_read_queue-unit :
    (e : IoError) (w : World) → (l : List ℕ) × ((flush_read_queue e w).1.unit ≡ flushed w.unit l)
unfolding flush_read_queue ◌>>=◌
flush_read_queue-unit e w = (
  _,
  sweep_events-unit (flush_orphan e) (flush_orphan-Serves e) _
      ∙ flushed-by _ w.unit _ (lists_flushed e _),
)

abort_event-sweep : (l : List ℕ) (w : World) → (sweep abort_event l w).0 ≡ []
unfolding sweep abort_event ◌>>=◌
abort_event-sweep [] w = refl
abort_event-sweep (r ∷ l) w = abort_event-sweep l _

-- The flush of all pending requests leaves the three read lists and the event list empty, and every
-- other field of the unit as it was.
pub flush_all_pending-unit : (w : World) → (flush_all_pending w).1.unit ≡ flushed w.unit []
unfolding flush_all_pending ◌>>=◌
flush_all_pending-unit w =
    sweep_events-unit abort_event abort_event-Serves _
    ∙ rw (abort_event-sweep) (ap (set_events []) (flush_read_queue-unit ioerr_aborted w).1)
