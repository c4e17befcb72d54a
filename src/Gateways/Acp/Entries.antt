-- ===== src/Gateways/Acp/Entries.antt =====
-- The entries of a plan against the events of its nodes.
use glassrail.Common.{
  Bool, List, Option, Option-cases, String, [], add, ap, arith, elem, elem-append, false,
  if◌then◌else◌, inl, inr, lookup, lookup-insert, map, none, not, refl, some, true, ℤ, ◌==◌, ◌||◌,
  ◌∙◌, ◌∷◌, ◌≡◌, int_eq,
}
use mathlib.Core.Path.{ap₂}
use glassrail.Core.{NodeStatus}
use Prim.Native.String.{◌++◌ as text_append}
use glassrail.Executor.Plans.{is_status}
use glassrail.Gateways.Acp.Loading.{last_node, label, known_ids, load-IsLoaded}
use glassrail.Gateways.Acp.{
  AcpStatus, SerialNode, load_ids, load, acp_plan_status, PlanTracker, stop_running, start, finish,
  Entry, content_of, described, entry, entries,
}

-- What the server tells the tracker of a node.
pub data NodeEvent : Type 0 where
  started : ℤ → NodeEvent
  finished : ℤ → NodeStatus → NodeEvent

unfoldable pub track : NodeEvent → PlanTracker → PlanTracker
unfolding start finish
track (NodeEvent.started i) t = start i t
track (NodeEvent.finished i status) t = finish i status t

-- The events, the latest first.
unfoldable pub track_all : List NodeEvent → PlanTracker → PlanTracker
unfolding track
track_all [] t = t
track_all (e ∷ es) t = track e (track_all es t)

-- The status with which a node has finished last.
abbrev pub last_status : ℤ → List NodeEvent → Option NodeStatus
last_status i [] = none
last_status i (NodeEvent.started j ∷ es) = last_status i es
last_status i (NodeEvent.finished j status ∷ es) = if j == i then some status else last_status i es

-- A node has started, and has not finished since.
abbrev pub is_running : ℤ → List NodeEvent → Bool
is_running i [] = false
is_running i (NodeEvent.started j ∷ es) = j == i || is_running i es
is_running i (NodeEvent.finished j status ∷ es) = if j == i then false else is_running i es

elem-add : (i j : ℤ) (xs : List ℤ) → elem i (add j xs) ≡ (j == i || elem i xs)
unfolding add elem
elem-add i j xs = ground (
  arith,
  elem-append i xs (j ∷ []),
  int_eq.beq_iff j i,
  int_eq.beq_iff i j,
  λ (s : j ≡ i). ap (λ k. elem k xs) s,
)

elem-stop_running :
    (i j : ℤ) (xs : List ℤ) → elem i (stop_running j xs) ≡ (if j == i then false else elem i xs)
unfolding stop_running elem
elem-stop_running i j [] = ground arith
elem-stop_running i j (x ∷ xs) =
    ground
      (arith, elem-stop_running i j xs, int_eq.beq_iff x j, int_eq.beq_iff i x, int_eq.beq_iff j i)

module _ (t : PlanTracker) (fresh : t.statuses ≡ []) (idle : t.running ≡ []) where
  track_all-status :
      (i : ℤ) (es : List NodeEvent) → lookup i (track_all es t).statuses ≡ last_status i es
  unfolding track_all lookup start finish
  track_all-status i [] = ap (lookup i) fresh
  track_all-status i (NodeEvent.started j ∷ es) = track_all-status i es
  track_all-status i (NodeEvent.finished j status ∷ es) =
      ground (arith, lookup-insert j i status (track_all es t).statuses, track_all-status i es)

  track_all-running :
      (i : ℤ) (es : List NodeEvent) → elem i (track_all es t).running ≡ is_running i es
  unfolding track_all elem start finish
  track_all-running i [] = ap (elem i) idle
  track_all-running i (NodeEvent.started j ∷ es) =
      ground (arith, elem-add i j (track_all es t).running, track_all-running i es)
  track_all-running i (NodeEvent.finished j status ∷ es) =
      ground (arith, elem-stop_running i j (track_all es t).running, track_all-running i es)

  track_all-order : (es : List NodeEvent) → (track_all es t).order ≡ t.order
  unfolding track_all start finish
  track_all-order [] = refl
  track_all-order (NodeEvent.started j ∷ es) = track_all-order es
  track_all-order (NodeEvent.finished j status ∷ es) = track_all-order es

  track_all-desc : (es : List NodeEvent) → (track_all es t).desc ≡ t.desc
  unfolding track_all start finish
  track_all-desc [] = refl
  track_all-desc (NodeEvent.started j ∷ es) = track_all-desc es
  track_all-desc (NodeEvent.finished j status ∷ es) = track_all-desc es

  -- The entry of a node after the events.
  abbrev pub entry_after : List NodeEvent → ℤ → Entry
  entry_after es i = record {
    node_id = i;
    content = content_of (described (lookup i t.desc)) (last_status i es);
    status = acp_plan_status (last_status i es) (is_running i es);
  }

  entry-track_all : (es : List NodeEvent) (i : ℤ) → entry (track_all es t) i ≡ entry_after es i
  unfolding entry
  entry-track_all es i = rw (track_all-status i es, track_all-running i es, track_all-desc es) refl

  entries-track_all :
      (es : List NodeEvent) → entries (track_all es t) ≡ map (entry_after es) t.order
  unfolding entries
  entries-track_all es = ap (map (entry (track_all es t))) (track_all-order es) ∙ same t.order
    where
      same : (is : List ℤ) → map (entry (track_all es t)) is ≡ map (entry_after es) is
      same [] = refl
      same (i ∷ is) = ap₂ (λ x xs. x ∷ xs) (entry-track_all es i) (same is)

-- The status of an entry: a node that has finished is completed, whatever the outcome.
abbrev pub shown_status : Option NodeStatus → Bool → AcpStatus
shown_status last running =
    if elim last [ none ↦ false | some status ↦ not (is_status status NodeStatus.pending) ]
    then AcpStatus.completed
    else if running
    then AcpStatus.in_progress
    else AcpStatus.pending

acp_plan_status_lem :
    (last : Option NodeStatus) (running : Bool)
    → acp_plan_status last running ≡ shown_status last running
unfolding acp_plan_status is_status
acp_plan_status_lem none true = refl
acp_plan_status_lem none false = refl
acp_plan_status_lem (some NodeStatus.pending) true = refl
acp_plan_status_lem (some NodeStatus.pending) false = refl
acp_plan_status_lem (some NodeStatus.completed) running = refl
acp_plan_status_lem (some NodeStatus.skipped) running = refl
acp_plan_status_lem (some NodeStatus.empty) running = refl
acp_plan_status_lem (some NodeStatus.failed) running = refl

-- The content of an entry: what is added to the description for the node's last status.
abbrev pub marked : Option NodeStatus → String → String
marked last text =
    if elim last [ none ↦ false | some status ↦ is_status status NodeStatus.skipped ]
    then text_append text " (skipped)"
    else if elim last [ none ↦ false | some status ↦ is_status status NodeStatus.failed ]
    then text_append text " (failed)"
    else text

content_of_lem :
    (last : Option NodeStatus) (text : String) → content_of text last ≡ marked last text
unfolding content_of is_status
content_of_lem none text = refl
content_of_lem (some NodeStatus.pending) text = refl
content_of_lem (some NodeStatus.completed) text = refl
content_of_lem (some NodeStatus.skipped) text = refl
content_of_lem (some NodeStatus.empty) text = refl
content_of_lem (some NodeStatus.failed) text = refl

-- The entry of a node, as an editor is to see it.
abbrev pub shown_entry : (String → String) → List NodeEvent → ℤ → SerialNode → Entry
shown_entry strip es i n = record {
  node_id = i;
  content =
      marked (last_status i es)
        (strip (text_append "[" (text_append n.kind (text_append "] " n.description))));
  status = shown_status (last_status i es) (is_running i es);
}

-- The entries of a list of ids.
unfoldable pub shown_entries :
    (String → String) → List SerialNode → List NodeEvent → List ℤ → List Entry
shown_entries strip ns es [] = []
shown_entries strip ns es (i ∷ is) =
    let rest = shown_entries strip ns es is in
    elim (last_node i ns) [ none ↦ rest | some n ↦ shown_entry strip es i n ∷ rest ]

-- The ids of a serialised plan, in its order if it has one.
abbrev pub plan_ids : List SerialNode → List ℤ → List ℤ
plan_ids ns [] = map (λ n. n.id) ns
plan_ids ns (i ∷ is) = i ∷ is

load_ids_lem : (ns : List SerialNode) (is : List ℤ) → load_ids ns is ≡ plan_ids ns is
load_ids_lem ns [] = refl
load_ids_lem ns (i ∷ is) = refl

shown_entries-map :
    (strip : String → String) (ns : List SerialNode) (es : List NodeEvent) (t : PlanTracker)
    (fresh : t.statuses ≡ []) (idle : t.running ≡ []) (is : List ℤ)
    → ((i : ℤ) (n : SerialNode)
        → last_node i ns ≡ some n
        → elem i is ≡ true
        → lookup i t.desc ≡ some (label strip ns n))
    → map (entry_after t fresh idle es) (known_ids strip ns is) ≡ shown_entries strip ns es is
unfolding shown_entries elem
shown_entries-map strip ns es t fresh idle [] desc = refl
shown_entries-map strip ns es t fresh idle (i ∷ is) desc =
    let later =
      shown_entries-map strip ns es t fresh idle is
        (λ j n known m. desc j n known (ground (arith, m))) in
    elim (Option-cases (last_node i ns)) [
      | inl e ↦ rw (known_ids, shown_entries, e) later
      | inr (n, e) ↦
          rw
            (
              known_ids,
              shown_entries,
              e,
              desc i n e (ground (arith, (int_eq.beq_iff i i).1 refl)),
              content_of_lem (last_status i es) (label strip ns n),
              acp_plan_status_lem (last_status i es) (is_running i es),
            )
            (ap (λ rest. shown_entry strip es i n ∷ rest) later)
    ]

-- The entries that an editor is sent: once a plan is loaded, into a tracker that may have shown
-- another one, after any events of its nodes there is one entry for each id of the plan's order that is
-- the id of a node, in this order, with the description of the last node with the id, marked if its node
-- was skipped or failed. It is completed if the node has finished, by the status with which it has
-- finished last, else in progress if it has started and not finished since, and pending otherwise.
pub entries-load :
    (strip : String → String) (ns : List SerialNode) (is : List ℤ) (t : PlanTracker)
    (es : List NodeEvent)
    → entries (track_all es (load strip ns is t)) ≡ shown_entries strip ns es (plan_ids ns is)
entries-load strip ns is t es =
    let loaded = load-IsLoaded strip ns is t in
    let t' = load strip ns is t in
    entries-track_all t' loaded.fresh loaded.idle es
    ∙ ap (map (entry_after t' loaded.fresh loaded.idle es)) loaded.order
    ∙ shown_entries-map strip ns es t' loaded.fresh loaded.idle (load_ids ns is) loaded.described
    ∙ ap (shown_entries strip ns es) (load_ids_lem ns is)
