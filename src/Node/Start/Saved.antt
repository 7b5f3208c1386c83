-- ===== src/Node/Start/Saved.antt =====
-- The topics of a broker that starts again, internal/broker/metadata.go.
use logship.Prelude.{
  ℕ, ◌≡◌, ◌⊎◌, inl, inr, refl, sym, ap, ◌∙◌, Bool, true, false, Option, none, some, List, [], ◌∷◌,
  Bytes, lookup, insert, lookup-insert, str_eq, str_eq→eq, str_eq_refl, str_leb, sort_by, insert_by,
  if◌then◌else◌, Bool-cases, arith, ==_refl,
}
use logship.Cluster.{Peer}
use logship.Cluster
use logship.Broker.{PartitionMeta}
use logship.Broker.Produce.{Topics}
use logship.Config.{Config, with_defaults}
use logship.Disk.{Disk, SaveIo, replace_file, replace_file-new}
use logship.Group.Durable.{read_at}
use logship.Store.{Store, Partitions, new_store, load_existing}
use logship.Node.{Node}
use logship.Node.Metadata.{snapshot_topics}
use logship.Node.Start.{
  put_topics, store_loaded, topics_loaded, node_of, persist_marshalled, persist_topics,
  load_unmarshalled, load_topics, new_broker,
}

-- Every name once, as in a map.
abbrev pub Distinct : Topics → Type 0
Distinct [] = Unit
Distinct ((name, ps) ∷ ts) = (lookup name ts ≡ none) × Distinct ts

-- Putting topics into a map: those of the file, and then the others.
or_else : Option (List PartitionMeta) → Option (List PartitionMeta) → Option (List PartitionMeta)
or_else none b = b
or_else (some a) b = some a

lookup-put_topics :
    (ts m : Topics) (k : Bytes)
    → Distinct ts
    → lookup k (put_topics ts m) ≡ or_else (lookup k ts) (lookup k m)
unfolding put_topics lookup or_else
lookup-put_topics [] m k d = refl
lookup-put_topics ((name, ps) ∷ ts) m k d =
    let rest = lookup-put_topics ts (insert name ps m) k d.1 in
    elim (Bool-cases (str_eq name k)) [
      | inl same ↦
          let none_later : lookup k ts ≡ none =
            ap (λ j. lookup j ts) (sym (str_eq→eq name k same)) ∙ d.0 in
          rest ∙ rw (none_later, lookup-insert name k ps m, same) refl
      | inr other ↦ rest ∙ rw (lookup-insert name k ps m, other) refl
    ]

str_leb_refl : (a : Bytes) → str_leb a a ≡ true
unfolding str_leb
str_leb_refl [] = refl
str_leb_refl (a ∷ as') = rw (==_refl a) (str_leb_refl as')

abbrev by_name : (a b : Bytes × List PartitionMeta) → Bool
by_name a b = str_leb a.0 b.0

lookup-insert_by :
    (name : Bytes) (ps : List PartitionMeta) (ts : Topics) (k : Bytes)
    → lookup k (insert_by by_name (name, ps) ts) ≡ lookup k ((name, ps) ∷ ts)
unfolding insert_by lookup
lookup-insert_by name ps [] k = refl
lookup-insert_by name ps ((other, qs) ∷ ts) k = elim (Bool-cases (str_leb name other)) [
  | inl first ↦ rw first refl
  | inr later ↦
      ground (
        arith,
        lookup-insert_by name ps ts k,
        str_eq→eq name k,
        str_eq→eq other k,
        str_leb_refl name,
      )
]

Distinct-insert_by :
    (name : Bytes) (ps : List PartitionMeta) (ts : Topics)
    → lookup name ts ≡ none
    → Distinct ts
    → Distinct (insert_by by_name (name, ps) ts)
unfolding insert_by lookup
Distinct-insert_by name ps [] e d = (refl, tt)
Distinct-insert_by name ps ((other, qs) ∷ ts) e d = elim (Bool-cases (str_leb name other)) [
  | inl first ↦ rw (first, Distinct) (e, d)
  | inr later ↦ elim (Bool-cases (str_eq other name)) [
    | inl same ↦ absurd_some qs (sym (rw same refl) ∙ e)
    | inr apart ↦
        let behind : lookup name ts ≡ none = sym (rw apart refl) ∙ e in
        rw (later, Distinct)
          (
            lookup-insert_by name ps ts other
                ∙ other_name (Bool-cases (str_eq name other)) apart d.0,
            Distinct-insert_by name ps ts behind d.1,
          )
  ]
]
  where
    absurd_some : {B : Type 0} (qs : List PartitionMeta) → some qs ≡ none → B
    absurd_some qs e = cc

    other_name :
        (str_eq name other ≡ true) ⊎ (str_eq name other ≡ false)
        → str_eq other name ≡ false
        → lookup other ts ≡ none
        → lookup other ((name, ps) ∷ ts) ≡ none
    other_name (inl same) apart d = ground (arith, str_eq→eq name other same, str_eq_refl name)
    other_name (inr differ) apart d = rw differ d

lookup-sorted : (ts : Topics) (k : Bytes) → lookup k (sort_by by_name ts) ≡ lookup k ts
unfolding sort_by lookup
lookup-sorted [] k = refl
lookup-sorted ((name, ps) ∷ ts) k =
    lookup-insert_by name ps (sort_by by_name ts) k
    ∙ ap (λ o. if str_eq name k then some ps else o) (lookup-sorted ts k)

sorted-Distinct : (ts : Topics) → Distinct ts → Distinct (sort_by by_name ts)
unfolding sort_by
sorted-Distinct [] d = tt
sorted-Distinct ((name, ps) ∷ ts) d =
    Distinct-insert_by name ps (sort_by by_name ts) (lookup-sorted ts name ∙ d.0)
      (sorted-Distinct ts d.1)

or_else-none : (o : Option (List PartitionMeta)) → or_else o none ≡ o
unfolding or_else
or_else-none none = refl
or_else-none (some ps) = refl

lookup-loaded :
    (topics : Topics) (name : Bytes)
    → Distinct topics
    → lookup name (put_topics (snapshot_topics topics) []) ≡ lookup name topics
unfolding snapshot_topics lookup
lookup-loaded topics name distinct =
    lookup-put_topics (sort_by by_name topics) [] name (sorted-Distinct topics distinct)
    ∙ or_else-none (lookup name (sort_by by_name topics))
    ∙ lookup-sorted topics name

module _ (marshal : Topics → Option Bytes) (unmarshal : Bytes → Option Topics) (path : Bytes) where
  -- What encoding/json documents: topics that were written are read back. It is asked of topics
  -- whose names are UTF-8.
  abbrev pub ReadsBack : Topics → Type 0
  ReadsBack ts = (bytes : Bytes) → marshal ts ≡ some bytes → unmarshal bytes ≡ some ts

  persisted-found :
      (io : SaveIo) (ts : Topics) (d : Disk) (o : Option Bytes)
      → marshal ts ≡ o
      → (persist_marshalled marshal unmarshal path io o d).0 ≡ true
      → (bytes : Bytes) × (marshal ts ≡ some bytes)
        × (lookup path (persist_marshalled marshal unmarshal path io o d).1 ≡ some bytes)
  unfolding persist_marshalled
  persisted-found io ts d none e ok = cc
  persisted-found io ts d (some bytes) e ok = (bytes, e, by_made io.made ok)
    where
      by_made :
          (made : Bool)
          → (if made then replace_file io path bytes d else (false, d)).0 ≡ true
          → lookup path (if made then replace_file io path bytes d else (false, d)).1 ≡ some bytes
      by_made true ok = replace_file-new path bytes d io ok
      by_made false ok = cc

  load_topics-persist_topics :
      (io : SaveIo) (topics : Topics) (d : Disk)
      → ReadsBack (snapshot_topics topics)
      → (persist_topics marshal unmarshal path io topics d).0 ≡ true
      → load_topics marshal unmarshal path
          (read_at (lookup path (persist_topics marshal unmarshal path io topics d).1))
          []
        ≡ (true, put_topics (snapshot_topics topics) [])
  unfolding persist_topics load_topics load_unmarshalled read_at
  load_topics-persist_topics io topics d back ok =
      let (bytes, written, there) =
        persisted-found io (snapshot_topics topics) d (marshal (snapshot_topics topics)) refl ok in
      rw (there, back bytes written) refl

  -- A broker that starts behind a save of its topics that returned no error has the same topics, where
  -- all its partitions can be opened, no two topics have the same name and they are read back as they
  -- were written.
  pub new_broker-persist_topics :
      (io : SaveIo) (topics : Topics) (d : Disk) (now id : ℕ) (advertise : Bytes)
      (peers : List Peer) (cfg : Config) (directories : List (Bytes × Option Partitions))
      (s : Store)
      → Distinct topics
      → ReadsBack (snapshot_topics topics)
      → (persist_topics marshal unmarshal path io topics d).0 ≡ true
      → load_existing directories new_store ≡ (true, s)
      → (n : Node) × (new_broker marshal unmarshal path now true id advertise peers cfg directories
            (read_at (lookup path (persist_topics marshal unmarshal path io topics d).1))
          ≡ some n)
        × (n.store ≡ s)
        × ((name : Bytes) → lookup name n.topics ≡ lookup name topics)
  unfolding new_broker store_loaded topics_loaded node_of
  new_broker-persist_topics io topics d now id advertise peers cfg directories s distinct back ok
        opened =
      (
        started,
        rw (opened, load_topics-persist_topics io topics d back ok) refl,
        refl,
        λ name. lookup-loaded topics name distinct,
      )
    where
      started : Node
      started = record {
        id = id;
        advertise = advertise;
        replica_lag_time = (with_defaults cfg).replica_lag_time;
        produce_timeout = (with_defaults cfg).produce_timeout;
        cluster =
            Cluster.new (record { id = id; addr = advertise }) peers
              (with_defaults cfg).session_timeout now;
        store = s;
        topics = put_topics (snapshot_topics topics) [];
        replica_leo = [];
        counter = 0;
      }
