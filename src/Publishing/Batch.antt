-- ===== src/Publishing/Batch.antt =====
-- publishing/batch.py. The UUIDv7 batch id comes from the standard library and is an argument.
use mathlib.Core.List.{append_assoc, append-nil}
use avengers_fyp_is.Common.{ℕ, ◌≡◌, ap, String, Option, List, [], ◌∷◌, ◌++◌}
use avengers_fyp_is.Publishing.Buffer.Defs.{PendingItem}

-- `PendingPayload`
pub data Payload (S E A : Type 0) : Type 0 where
  of_snapshot : S → Payload S E A
  of_event : E → Payload S E A
  of_alert : A → Payload S E A

pub record TelemetryBatch (S E A H : Type 0) : Type 0 where
  pub schema_version : ℕ
  pub batch_id : String
  pub batch_seq : ℕ
  pub agent_id : String
  pub application : String
  pub sent_at : ℕ
  pub snapshots : List S
  pub events : List E
  pub alerts : List A
  pub heartbeat : Option H

pub record Sorted (S E A : Type 0) : Type 0 where
  pub snapshots : List S
  pub events : List E
  pub alerts : List A

module _ {S E A : Type 0} where
  abbrev pub place : Payload S E A → Sorted S E A → Sorted S E A
  place (of_snapshot s) b = record b { snapshots = b.snapshots ++ (s ∷ []) }
  place (of_event e) b = record b { events = b.events ++ (e ∷ []) }
  place (of_alert a) b = record b { alerts = b.alerts ++ (a ∷ []) }

  -- The loop of `build_batch`.
  unfoldable pub sort_items : List (PendingItem (Payload S E A)) → Sorted S E A → Sorted S E A
  sort_items [] b = b
  sort_items (item ∷ items) b = sort_items items (place item.payload b)

  abbrev pub snapshot_in : Payload S E A → List S
  snapshot_in (of_snapshot s) = s ∷ []
  snapshot_in _ = []

  abbrev pub event_in : Payload S E A → List E
  event_in (of_event e) = e ∷ []
  event_in _ = []

  abbrev pub alert_in : Payload S E A → List A
  alert_in (of_alert a) = a ∷ []
  alert_in _ = []

-- The payloads of one kind, in the order of the items.
abbrev pub collect : {P B : Type 0} → (P → List B) → List (PendingItem P) → List B
collect f [] = []
collect f (item ∷ items) = f item.payload ++ collect f items

module _ {S E A H : Type 0} where
  unfoldable pub build_batch :
      List (PendingItem (Payload S E A))
      → String
      → String
      → String
      → ℕ
      → Option H
      → ℕ
      → TelemetryBatch S E A H
  unfolding sort_items
  build_batch items agent_id application batch_id batch_seq heartbeat now =
      let b = sort_items items (record { snapshots = []; events = []; alerts = [] }) in
      record {
        schema_version = 1;
        batch_id = batch_id;
        batch_seq = batch_seq;
        agent_id = agent_id;
        application = application;
        sent_at = now;
        snapshots = b.snapshots;
        events = b.events;
        alerts = b.alerts;
        heartbeat = heartbeat;
      }

module _ {S E A : Type 0} where
  place_lem :
      (x : Payload S E A) (b : Sorted S E A)
      → place x b ≡ record {
        snapshots = b.snapshots ++ snapshot_in x;
        events = b.events ++ event_in x;
        alerts = b.alerts ++ alert_in x;
      }
  place_lem (of_snapshot s) b = simp append-nil
  place_lem (of_event e) b = simp append-nil
  place_lem (of_alert a) b = simp append-nil

  sort_items_lem :
      (items : List (PendingItem (Payload S E A))) (b : Sorted S E A)
      → sort_items items b ≡ record {
        snapshots = b.snapshots ++ collect snapshot_in items;
        events = b.events ++ collect event_in items;
        alerts = b.alerts ++ collect alert_in items;
      }
  unfolding sort_items
  sort_items_lem [] b = simp append-nil
  sort_items_lem (item ∷ items) b =
      rw (sort_items_lem items (place item.payload b))
        (rw (place_lem item.payload b) (simp append_assoc))

module _ {S E A H : Type 0} where
  -- The batch of `items` holds every payload once, in the list of its kind, in the order of `items`.
  pub record Carries (items : List (PendingItem (Payload S E A))) (b : TelemetryBatch S E A H)
      : Type 0 where
    pub snapshots : b.snapshots ≡ collect snapshot_in items
    pub events : b.events ≡ collect event_in items
    pub alerts : b.alerts ≡ collect alert_in items

  -- `build_batch` puts every payload into the list of its kind, once, in the order of the items, and
  -- nothing else into these lists.
  pub build_batch-Carries :
      (items : List (PendingItem (Payload S E A))) (agent_id application batch_id : String)
      (batch_seq : ℕ) (heartbeat : Option H) (now : ℕ)
      → Carries items (build_batch items agent_id application batch_id batch_seq heartbeat now)
  unfolding build_batch
  build_batch-Carries items agent_id application batch_id batch_seq heartbeat now =
      let e = sort_items_lem items (record { snapshots = []; events = []; alerts = [] }) in
      record {
        snapshots = ap (λ (b : Sorted S E A). b.snapshots) e;
        events = ap (λ (b : Sorted S E A). b.events) e;
        alerts = ap (λ (b : Sorted S E A). b.alerts) e;
      }
