-- ===== src/Traffic/Clash.antt =====
-- `proxyAggregator` of traffic/proxy_users.go: sing-box's connection snapshots become bytes per
-- user and per destination. The rates and the rows for the screen are left out. A Go map that is
-- ranged over comes as a list in the order of that loop.
pub mod Totals
pub mod Sums
pub mod Charges
pub mod Seed
pub mod Flush
mod Tests
use zenith_panel.Common.{
  ℕ, suc, ◌+◌, ◌-◌, ◌/◌, ◌%◌, List, [], ◌∷◌, ◌++◌, Option, none, some, Bool, true, false, not, ◌&&◌,
  ◌||◌, Text, codes, nat_eq, text_eq, text_beq, text_beq_iff, if◌then◌else◌, ◌==◌, Eq, ltb, leb,
  add_u64, is_some, length, map, Result, ok, err, strip_prefix, arith, ◌≡◌, refl, ◌↔◌,
}
use zenith_panel.Common.Assoc.{lookup, assign}
use zenith_panel.Traffic.Delta.{Delta, Counters, counter_at, or_zero, add_delta}
use zenith_panel.Traffic.Accountant.{Faults, Db, Committed, is_settled, apply_deltas_with_persist}

pub record DestAggKey : Type 0 where
  pub user : Text
  pub host : Text
  pub ip : Text

pub record ClashConn : Type 0 where
  pub id : Text
  pub upload : ℕ
  pub download : ℕ
  pub destination_ip : Text
  pub host : Text
  pub inbound_user : Text
  pub user : Text
  pub chains : List Text

abbrev pub zero_delta : Delta
zero_delta = record { up = 0; down = 0 }

user_in : List Text → Text
user_in [] = []
user_in (ob ∷ chains) = elim (strip_prefix (codes "user:") ob) [
  | some u ↦ u
  | none ↦ user_in chains
]

user_of : ClashConn → Text
unfolding user_in
user_of c =
    if not (c.user == [])
    then c.user
    else if not (c.inbound_user == [])
    then c.inbound_user
    else user_in c.chains

unfoldable pub named_user : ClashConn → Text
unfolding user_of
named_user c = let u = user_of c in if u == [] then codes "(anonymous)" else u

-- The maps that `fetchConnections` builds from the parsed answer.
abbrev or_empty : Option (List ClashConn) → List ClashConn
or_empty none = []
or_empty (some cs) = cs

unfoldable pub group : List ClashConn → List (Text × List ClashConn) → List (Text × List ClashConn)
group [] by_user = by_user
group (c ∷ conns) by_user =
    let u = named_user c in group conns (assign u (or_empty (lookup u by_user) ++ (c ∷ [])) by_user)

unfoldable pub index : List ClashConn → List (Text × ClashConn) → List (Text × ClashConn)
index [] by_id = by_id
index (c ∷ conns) by_id = index conns (if c.id == [] then by_id else assign c.id c by_id)

pub sub_floor : ℕ → ℕ → ℕ
sub_floor a b = if ltb b a then a - b else 0

-- `a - b` where it may wrap.
abbrev pub sub_u64 : ℕ → ℕ → ℕ
sub_u64 a b = (a + (18446744073709551616 - b % 18446744073709551616)) % 18446744073709551616

abbrev pub sub_delta : Delta → Delta → Delta
sub_delta a b = record { up = sub_u64 a.up b.up; down = sub_u64 a.down b.down }

-- `pd := m[k]; pd += d; m[k] = pd`.
pub credit {ℓ} : {K : Type ℓ} ⦃e : Eq K⦄ → K → Delta → List (K × Delta) → List (K × Delta)
credit k d m = assign k (add_delta (or_zero (lookup k m)) d) m

dest_beq : DestAggKey → DestAggKey → Bool
dest_beq a b = text_beq a.user b.user && (text_beq a.host b.host && text_beq a.ip b.ip)

dest_beq_iff : (a b : DestAggKey) → (dest_beq a b ≡ true) ↔ (a ≡ b)
unfolding dest_beq
dest_beq_iff a b =
    ground (arith, text_beq_iff a.user b.user, text_beq_iff a.host b.host, text_beq_iff a.ip b.ip)

instance dest_eq : Eq DestAggKey
dest_eq = record { equal = dest_beq; equal_iff = dest_beq_iff }

pub record ProxyAggregator : Type 0 where
  pub last_conn : List (Text × ClashConn)
  pub last_totals : Delta
  pub have_totals : Bool
  pub last_conn_delta : Counters
  pub pending_flush : Counters
  pub pending_dest : List (DestAggKey × Delta)
  pub external_baseline_pending : Bool

unfoldable pub drain_pending : ProxyAggregator → Counters × ProxyAggregator
drain_pending a = (a.pending_flush, record a { pending_flush = [] })

pub requeue : Text → Delta → ProxyAggregator → ProxyAggregator
unfolding credit
requeue user d a = record a { pending_flush = credit user d a.pending_flush }

unfoldable pub drain_pending_dest : ProxyAggregator → List (DestAggKey × Delta) × ProxyAggregator
drain_pending_dest a = (a.pending_dest, record a { pending_dest = [] })

-- The loop of `flushSingbox` of accountant.go, by what `applyDeltas` says is settled.
unfoldable pub requeue_all : (Text → Bool) → Counters → ProxyAggregator → ProxyAggregator
unfolding requeue
requeue_all settled [] a = a
requeue_all settled ((ident, d) ∷ pending) a =
    requeue_all settled pending (if settled ident then a else requeue ident d a)

-- A failed transaction settles nothing.
unfoldable pub after_apply :
    {Raw : Type 0}
    → Result (Db Raw × Committed)
    → Counters
    → Db Raw
    → ProxyAggregator
    → ProxyAggregator × Db Raw
unfolding requeue_all
after_apply (ok (db', done)) pending db a = (requeue_all (is_settled done) pending a, db')
after_apply (err e) pending db a = (requeue_all (is_settled []) pending a, db)

unfoldable pub flush_pending :
    {Raw : Type 0} → Faults → Counters → Db Raw → ProxyAggregator → ProxyAggregator × Db Raw
unfolding after_apply
flush_pending fails [] db a = (a, db)
flush_pending fails (x ∷ pending) db a =
    after_apply (apply_deltas_with_persist fails (x ∷ pending) none (some db)) (x ∷ pending) db a

unfoldable pub flush_singbox :
    {Raw : Type 0} → Faults → Db Raw → ProxyAggregator → ProxyAggregator × Db Raw
unfolding drain_pending flush_pending
flush_singbox fails db a = let (pending, a') = drain_pending a in flush_pending fails pending db a'

-- An identity, or the one identity with this email; `totals` lists identities with their emails.
matches : Text → List (Text × Text) → List Text
matches user [] = []
matches user ((id, email) ∷ totals) =
    if email == user then id ∷ matches user totals else matches user totals

only : Text → List Text → Text
only user (id ∷ []) = id
only user _ = user

unfoldable pub resolve : List (Text × Text) → Text → Text
unfolding matches only
resolve totals user = if is_some (lookup user totals) then user else only user (matches user totals)

-- The bytes that one connection moved since the snapshot before.
abbrev grown : ℕ → ℕ → ℕ
grown new old = if ltb new old then 0 else new - old

since : Option ClashConn → ClashConn → Delta
since none c = record { up = c.upload; down = c.download }
since (some old) c = record { up = grown c.upload old.upload; down = grown c.download old.download }

pub conn_delta : Bool → List (Text × ClashConn) → ClashConn → Delta
unfolding since
conn_delta seed prev c = if seed then zero_delta else since (lookup c.id prev) c

-- What the loops over the connections add up.
pub record Tick : Type 0 where
  pub moved : Counters
  pub sum : Delta
  pub user_sum : Delta
  pub pending_dest : List (DestAggKey × Delta)
  pub pending_flush : Counters

-- `up > 0 || down > 0`.
pub is_some_delta : Delta → Bool
is_some_delta d = ltb 0 d.up || ltb 0 d.down

module _ (log_dest seed : Bool) (prev : List (Text × ClashConn)) where
  log : Text → ClashConn → Delta → List (DestAggKey × Delta) → List (DestAggKey × Delta)
  unfolding credit
  log user c d dest =
      if log_dest && is_some_delta d
      then credit (record { user = user; host = c.host; ip = c.destination_ip }) d dest
      else dest

  pub count_conns : Text → List ClashConn → Tick → Tick
  unfolding log
  count_conns user [] t = t
  count_conns user (c ∷ conns) t =
      let d = conn_delta seed prev c in
      count_conns user conns (record t {
        moved = assign c.id d t.moved;
        sum = add_delta t.sum d;
        user_sum = add_delta t.user_sum d;
        pending_dest = log user c d t.pending_dest;
      })

  flush_user : Text → Tick → Tick
  unfolding credit
  flush_user user t =
      if is_some_delta t.user_sum
      then record t { pending_flush = credit user t.user_sum t.pending_flush }
      else t

  pub count_users : List (Text × Text) → List (Text × List ClashConn) → Tick → Tick
  unfolding flush_user count_conns
  count_users totals [] t = t
  count_users totals ((name, conns) ∷ by_user) t =
      let user = resolve totals name in
      count_users totals by_user
        (flush_user user (count_conns user conns (record t { user_sum = zero_delta })))

-- The connections of the snapshot before that are closed now, with their users and weights.
pub gone_conns : List (Text × ClashConn) → List (Text × ClashConn) → Counters → List (Text × ℕ)
gone_conns [] cur last_delta = []
gone_conns ((id, c) ∷ prev) cur last_delta =
    let d = counter_at id last_delta in
    if is_some (lookup id cur)
    then gone_conns prev cur last_delta
    else (named_user c, add_u64 d.up d.down) ∷ gone_conns prev cur last_delta

total_weight : List (Text × ℕ) → ℕ
total_weight [] = 0
total_weight ((u, w) ∷ gone) = add_u64 w (total_weight gone)

pub credit_all : Counters → Counters → Counters
unfolding credit
credit_all [] pending = pending
credit_all ((u, d) ∷ out) pending = credit_all out (credit u d pending)

pub no_less : Delta → Delta → Bool
no_less a b = leb b.up a.up && leb b.down a.down

pub remainder : Delta → Delta → Delta → Delta
unfolding sub_floor
remainder totals last sum = record {
  up = sub_floor (totals.up - last.up) sum.up;
  down = sub_floor (totals.down - last.down) sum.down;
}

-- `share rem weight total` is the conversion of `float64(rem) * float64(weight) / float64(total)`.
module _ (share : ℕ → ℕ → ℕ → ℕ) where
  part : ℕ → ℕ → Delta → ℕ → Delta
  part n total rem weight =
      if total == 0
      then record { up = rem.up / n; down = rem.down / n }
      else record { up = share rem.up weight total; down = share rem.down weight total }

  -- The loop; the last one takes what is left.
  pub deal : ℕ → ℕ → Delta → Delta → List (Text × ℕ) → Counters → Counters
  unfolding part credit
  deal n total rem given [] out = out
  deal n total rem given ((u, w) ∷ []) out = credit u (sub_delta rem given) out
  deal n total rem given ((u, w) ∷ g ∷ gone) out =
      let d = part n total rem w in deal n total rem (add_delta given d) (g ∷ gone) (credit u d out)

  pub split_closed_remainder :
      List (Text × ClashConn) → List (Text × ClashConn) → Counters → Delta → Counters
  unfolding deal total_weight
  split_closed_remainder prev cur last_delta rem =
      let gone = gone_conns prev cur last_delta in
      deal (length gone) (total_weight gone) rem zero_delta gone []

  -- The bytes that closed connections moved after the snapshot before.
  pub charge_closed : ProxyAggregator → List (Text × ClashConn) → Delta → Tick → Counters
  unfolding split_closed_remainder credit_all no_less remainder
  charge_closed a by_id totals t =
      if not a.external_baseline_pending && a.have_totals && no_less totals a.last_totals
      then (let rem = remainder totals a.last_totals t.sum in
          if is_some_delta rem
          then credit_all (split_closed_remainder a.last_conn by_id a.last_conn_delta rem)
              t.pending_flush
          else t.pending_flush)
      else t.pending_flush

  abbrev start_tick : ProxyAggregator → Tick
  start_tick a = record {
    moved = [];
    sum = zero_delta;
    user_sum = zero_delta;
    pending_dest = a.pending_dest;
    pending_flush = a.pending_flush;
  }

  -- The method takes its lock twice; here both sections are one step.
  pub process_connections :
      Bool
      → List (Text × Text)
      → List (Text × List ClashConn)
      → List (Text × ClashConn)
      → Delta
      → ProxyAggregator
      → ProxyAggregator
  unfolding count_users charge_closed
  process_connections log_dest client_totals by_user by_id totals a =
      let t =
        count_users log_dest a.external_baseline_pending a.last_conn client_totals by_user
          (start_tick a) in
      record {
        last_conn = by_id;
        last_totals = totals;
        have_totals = true;
        last_conn_delta = t.moved;
        pending_flush = charge_closed a by_id totals t;
        pending_dest = t.pending_dest;
        external_baseline_pending = false;
      }
