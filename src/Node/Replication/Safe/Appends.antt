-- ===== src/Node/Replication/Safe/Appends.antt =====
-- A record that is produced at the leader of a replicated partition, in internal/broker.
use logship.Prelude.{
  arith, ℕ, ◌≡◌, ◌≢◌, refl, sym, ap, subst, ◌∙◌, Option, none, some, [], ◌∷◌, ◌++◌, All-append,
  All-map, OneOf-append, Bytes, append_assoc,
}
use logship.Prelude.Int.{ℤ}
use logship.Record.{Record}
use logship.Record.RoundTrip.{IsWire}
use logship.Log.{Log, leo}
use logship.Log
use logship.Log.Chain.{records}
use logship.Log.Append.{healthy, Appended, append-Appended}
use logship.Broker.Follow.{Stored, from_wire}
use logship.Protocol.Json.{IsText}
use logship.Store.{key, get, put}
use logship.Store.Keys.{get-put_same}
use logship.Node.{Node, meta_of-topics, states_of}
use logship.Node.Produce.{hw_at-get, hw_at-put}
use logship.Node.Replication.{System}
use logship.Node.Replication.Safe.{Replicated}

module _ (topic : Bytes) (partition : ℤ) (me : Node) (base : ℕ) (s : System)
    (h : Replicated topic partition me base s) where
  grown-Replicated :
      (now : ℕ) (key_ value : Bytes)
      → IsWire (record { offset = leo h.leads.log; timestamp = now; key = key_; value = value })
      → IsText (record { offset = leo h.leads.log; timestamp = now; key = key_; value = value })
      → now ≢ 0
      → Replicated topic partition me base (record s {
        leader = record s.leader {
          store =
              put
                (key topic partition)
                (Log.append (healthy now) key_ value h.leads.log).1
                s.leader.store;
        };
      })
  grown-Replicated now key_ value wire text timed = record {
    all = h.all ++ rec ∷ [];
    leads = record {
      pm = h.leads.pm;
      log = grown;
      leads = record {
        known = meta_of-topics topic partition s.leader leader' refl ∙ h.leads.leads.known;
        leads = h.leads.leads.leads;
        stored = get-put_same topic partition grown s.leader.store;
      };
      replica = h.leads.replica;
      in_isr = h.leads.in_isr;
      parts = a.parts;
      last = a.last;
      held = a.held;
      same = a.grown ∙ ap (λ k. k ++ rec ∷ []) h.leads.same;
      small = rw a.same_cfg h.leads.small;
    };
    apart = h.apart;
    stored = All-append Stored h.all (rec ∷ []) h.stored ((wire, timed), tt);
    text = All-append IsText h.all (rec ∷ []) h.text (text, tt);
    named = h.named;
    follows = record {
      parts = h.follows.parts;
      last = h.follows.last;
      missing = h.follows.missing ++ rec ∷ [];
      held = h.follows.held;
      split =
          ap (λ k. k ++ rec ∷ []) h.follows.split
          ∙ append_assoc (records h.follows.parts h.follows.last) h.follows.missing (rec ∷ []);
    };
    small = h.small;
    committed = omega (
      arith,
      h.committed,
      hw_at-put topic partition grown s.leader,
      hw_at-get topic partition h.leads.log s.leader h.leads.leads.stored,
      a.same_hw,
    );
    known = λ st e. h.known st (unfold states_of in e);
    sent = h.sent;
    answered =
        All-map s.answers
          (λ fr good.
            All-map (from_wire fr.records) (λ r at. OneOf-append h.all (rec ∷ []) r at) good)
          h.answered;
  }
    where
      rec : Record
      rec = record { offset = leo h.leads.log; timestamp = now; key = key_; value = value }

      grown : Log
      grown = (Log.append (healthy now) key_ value h.leads.log).1

      a :
          Appended base
            (records h.leads.parts h.leads.last)
            h.leads.log
            rec
            (Log.append (healthy now) key_ value h.leads.log)
      a =
          append-Appended now base key_ value h.leads.log h.leads.parts h.leads.last h.leads.held
            wire h.leads.small

      leader' : Node
      leader' = record s.leader { store = put (key topic partition) grown s.leader.store }

  abbrev log_or : Option Log → Log
  log_or none = h.leads.log
  log_or (some l) = l

  pub append-Replicated :
      (now : ℕ) (key_ value : Bytes) (l : Log)
      → get topic partition s.leader.store ≡ some l
      → IsWire (record { offset = leo l; timestamp = now; key = key_; value = value })
      → IsText (record { offset = leo l; timestamp = now; key = key_; value = value })
      → now ≢ 0
      → Replicated topic partition me base (record s {
        leader = record s.leader {
          store =
              put (key topic partition) (Log.append (healthy now) key_ value l).1 s.leader.store;
        };
      })
  append-Replicated now key_ value l found wire text timed =
      subst
        (λ x.
          IsWire (record { offset = leo x; timestamp = now; key = key_; value = value })
          → Replicated topic partition me base (record s {
            leader = record s.leader {
              store =
                  put (key topic partition) (Log.append (healthy now) key_ value x).1
                    s.leader.store;
            };
          }))
        (ap log_or (sym h.leads.leads.stored ∙ found))
        (λ w. grown-Replicated now key_ value w text timed) wire
