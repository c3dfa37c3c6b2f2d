-- ===== src/Views/ChangeSet.antt =====
-- `_serve_v1_changeset` of nix/gateway.py: one change set with its links, its tasks, and the agent runs
-- that WeftMark's detail names.
use rebekah.Prelude.{
  String, Bool, true, false, not, ◌&&◌, ◌||◌, Option, none, some, List, [], ◌∷◌, ◌++◌, map, any,
  if◌then◌else◌,
}
use rebekah.Prelude.Text.{Text, codes, text_eq, starts_with, is_member}
use rebekah.Prelude.Dict.{Dict}
use rebekah.Prelude.Exec.{Result, ok, err, Raised, type_error}
use rebekah.Json.{
  Json, boolean, str, arr, obj, object, array, as_dict, as_text, get, get_of, or_dict, or_list,
  is_truthy, Items, nil, cons, Fields, end, field, dict_or_nil,
}
use rebekah.Json.Dumps.{dumps}
use rebekah.Views.Kanban.{◌>>=◌, gather, values, title_of}

-- `a == b` of two values from JSON, where one is the text of the request.
abbrev pub is_text : Text → Json → Bool
is_text s v = elim v [ str t ↦ text_eq t s | _ ↦ false ]

-- `s in v`: a key of a dict, an element of a list, a part of a text.
abbrev is_part : Text → Text → Bool
is_part s [] = starts_with [] s
is_part s (c ∷ t) = starts_with (c ∷ t) s || is_part s t

abbrev is_key : Text → Fields → Bool
is_key s end = false
is_key s (field k v fs) = text_eq k s || is_key s fs

abbrev is_item : Text → Items → Bool
is_item s nil = false
is_item s (cons v vs) = is_text s v || is_item s vs

unfoldable pub contains : Text → Json → Result Raised Bool
contains s (arr vs) = ok (is_item s vs)
contains s (obj fs) = ok (is_key s fs)
contains s (str t) = ok (is_part s t)
contains s _ = err type_error

abbrev card_of : Json → Result Raised (Dict Json)
card_of v = get_of v (codes "kind") >>= λ _. elim (as_dict v) [ none ↦ ok [] | some d ↦ ok d ]

abbrev is_wanted : Text → Dict Json → Bool
is_wanted id card =
    is_text (codes "change_set") (get card (codes "kind")) && is_text id (get card (codes "id"))

abbrev chosen :
    Bool → Dict Json → Result Raised (Option (Dict Json)) → Result Raised (Option (Dict Json))
chosen true card rest = ok (some card)
chosen false card rest = rest

-- The first card of the change set; the loop stops there.
unfoldable pub find_card : Text → List Json → Result Raised (Option (Dict Json))
find_card id [] = ok none
find_card id (v ∷ vs) =
    let rest = find_card id vs in card_of v >>= λ card. chosen (is_wanted id card) card rest

abbrev link : String → Dict Json → Json
link kind rest =
    object ((codes "system", str (codes "weftmark")) ∷ (codes "kind", str (codes kind)) ∷ rest)

abbrev when {ℓ} : {A : Type ℓ} → Bool → List A → List A
when true xs = xs
when false xs = []

-- `if isinstance(v, dict) and v.get("id")`
abbrev with_id : Json → (Dict Json → Json) → List Json
with_id v make = elim (as_dict v) [
  | none ↦ []
  | some d ↦ when (is_truthy (get d (codes "id"))) (make d ∷ [])
]

-- The links of the card itself: its branch, review, handoff and active claims.
unfoldable pub card_links : Dict Json → Result Raised (List Json)
card_links card = do
  branch ← get_of (or_dict (get card (codes "git"))) (codes "branch")
  head_sha ← get_of (or_dict (get card (codes "git"))) (codes "head_sha")
  claims ← values (or_dict (get card (codes "claims"))) (codes "active_ids")
  ok (
      when (is_truthy branch)
        (link "git_branch" ((codes "id", branch) ∷ (codes "head_sha", head_sha) ∷ []) ∷ [])
      ++ (with_id (get card (codes "review")) (λ d. link "review" (
            (codes "id", get d (codes "id"))
            ∷ (codes "state", get d (codes "outcome"))
            ∷ (codes "current", get d (codes "is_current"))
            ∷ []))
          ++ (with_id (get card (codes "handoff")) (λ d. link "handoff" (
                (codes "id", get d (codes "id"))
                ∷ (codes "current", get d (codes "is_current"))
                ∷ []))
              ++ map (λ c. link "claim" ((codes "id", c) ∷ [])) claims)))

abbrev plan_task : Bool → Dict Json → List Json
plan_task true pc =
    link "task" (
      (codes "id", get pc (codes "id"))
      ∷ (codes "title", get pc (codes "title"))
      ∷ (codes "state", get pc (codes "task_state"))
      ∷ [])
    ∷ []
plan_task false pc = []

-- A plan card that names the change set.
unfoldable pub plan_tasks : Text → Json → Result Raised (List Json)
plan_tasks id v = do
  names ← get_of v (codes "change_set_ids")
  named ← contains id (or_list names)
  elim (as_dict v) [ none ↦ ok [] | some pc ↦ ok (plan_task named pc) ]

-- `a == b`: dicts in any order. (Python also equates 1, 1.0 and True, which no task id is.)
unfoldable pub same : Json → Json → Bool
unfolding dumps text_eq
same a b = text_eq (dumps a) (dumps b)

abbrev has_task : Json → List Json → Bool
has_task id tasks =
    any (λ t. elim (as_dict t) [ none ↦ false | some d ↦ same (get d (codes "id")) id ]) tasks

abbrev linked_task : Text → Dict Json → List Json → List Json
linked_task id l tasks =
    when
      (is_text id (get l (codes "change_set_id")) && not (has_task (get l (codes "task_id")) tasks))
      (link "task" (
          (codes "id", get l (codes "task_id"))
          ∷ (codes "state", get l (codes "binding_state"))
          ∷ [])
        ∷ [])

-- The link records of tasks that no plan card named, in order, each once.
unfoldable pub add_linked : Text → List Json → List Json → Result Raised (List Json)
add_linked id [] tasks = ok tasks
add_linked id (v ∷ vs) tasks = get_of v (codes "change_set_id") >>= λ _.
    add_linked id vs (tasks ++ linked_task id (dict_or_nil (some v)) tasks)

unfoldable pub tasks_of : Text → Json → Result Raised (List Json)
tasks_of id kanban = do
  plan_cards ← values kanban (codes "plan_cards")
  tasks ← gather (plan_tasks id) plan_cards
  records ← values kanban (codes "task_change_set_links")
  add_linked id records tasks

-- The references of one system so far: those seen, and the list.
abbrev pub Refs : Type 0
Refs = List Text × List Json

-- A candidate is kept where it is a text of the system that is new.
abbrev pub keep : Text → (Text → Json) → Json → Refs → Refs
keep prefix make v (seen, refs) = elim (as_text v) [
  | none ↦ (seen, refs)
  | some s ↦
      if starts_with s prefix && not (is_member s seen)
      then (seen ++ s ∷ [], refs ++ make s ∷ [])
      else (seen, refs)
]

abbrev pub keep_all : Text → (Text → Json) → List Json → Refs → Refs
keep_all prefix make [] refs = refs
keep_all prefix make (v ∷ vs) refs = keep_all prefix make vs (keep prefix make v refs)

abbrev pub evidence_ref : Dict Json → Text → Json
evidence_ref r s = object ((codes "id", str s) ∷ (codes "evidence", get r (codes "id")) ∷ [])

-- The producer of a piece of evidence, and its artifacts.
abbrev pub candidates : Json → Dict Json → Result Raised (List Json)
candidates v r = get_of (or_dict (get r (codes "producer"))) (codes "id") >>= λ producer.
    values v (codes "artifacts") >>= λ artifacts. ok (producer ∷ artifacts)

-- The evidence of past runs.
unfoldable pub evidence_refs : Text → List Json → Refs → Result Raised Refs
evidence_refs prefix [] refs = ok refs
evidence_refs prefix (v ∷ vs) refs = elim (as_dict v) [
  | none ↦ evidence_refs prefix vs refs
  | some r ↦ candidates v r >>= λ found.
      evidence_refs prefix vs (keep_all prefix (evidence_ref r) found refs)
]

abbrev pub claim_ref : Dict Json → Text → Json
claim_ref c s = object (
    (codes "id", str s) ∷ (codes "claim", get c (codes "id")) ∷ (codes "active", boolean true) ∷ [])

-- The sessions of workers that hold a claim now.
unfoldable pub claim_refs : Text → List Json → Refs → Refs
claim_refs prefix [] refs = refs
claim_refs prefix (v ∷ vs) refs = elim (as_dict v) [
  | none ↦ claim_refs prefix vs refs
  | some c ↦ claim_refs prefix vs (keep prefix (claim_ref c) (get c (codes "session")) refs)
]

abbrev pub related_entry : Text → List Json → Json
related_entry system [] = object (
    (codes "linked", boolean false)
    ∷ (
      codes "reason",
      str (
          codes "No "
          ++ (system ++ codes " reference on this change set's evidence or active claims yet.")),
    )
    ∷ [])
related_entry system refs =
    object ((codes "linked", boolean true) ∷ (codes "refs", array refs) ∷ [])

unfoldable pub system_refs : Text → List Json → List Json → Result Raised (List Json)
system_refs system evidence claims =
    evidence_refs (system ++ codes ":") evidence ([], []) >>= λ refs.
    ok (claim_refs (system ++ codes ":") claims refs).1

-- `detail["card"]` where the detail has one.
abbrev detail_card : Json → Dict Json
detail_card detail = elim (as_dict detail) [
  | none ↦ []
  | some d ↦ elim (as_dict (get d (codes "card"))) [ none ↦ [] | some c ↦ c ]
]

unfoldable pub related_of : Json → Result Raised Json
related_of detail = do
  evidence ← values (object (detail_card detail)) (codes "evidence_refs")
  claims ← values (or_dict (get (detail_card detail) (codes "claims"))) (codes "active")
  opencode ← system_refs (codes "opencode") evidence claims
  sylvae ← system_refs (codes "sylvae") evidence claims
  ok (
      object (
        (codes "opencode", related_entry (codes "opencode") opencode)
        ∷ (codes "sylvae", related_entry (codes "sylvae") sylvae)
        ∷ []))

-- What the endpoint answers: the backend is unreachable, it has no such change set, or the view.
pub data Found : Type 0 where
  unreachable absent : Found
  view : Json → Found

abbrev git_view : Dict Json → Result Raised Json
git_view card = do
  branch ← get_of (or_dict (get card (codes "git"))) (codes "branch")
  head_sha ← get_of (or_dict (get card (codes "git"))) (codes "head_sha")
  observed_at ← get_of (or_dict (get card (codes "git"))) (codes "observed_at")
  dirty ← get_of (or_dict (get card (codes "git"))) (codes "dirty_paths")
  ok (
      object (
        (codes "branch", branch)
        ∷ (codes "head_sha", head_sha)
        ∷ (codes "observed_at", observed_at)
        ∷ (codes "dirty_paths", or_list dirty)
        ∷ []))

unfoldable pub detail_view : Text → Text → Json → Json → Dict Json → Result Raised Json
detail_view now id kanban detail card = do
  links ← card_links card
  tasks ← tasks_of id kanban
  related ← related_of detail
  git ← git_view card
  ok (
      object (
        (codes "schema", str (codes "rebekah.change-set.v1"))
        ∷ (codes "observed_at", str now)
        ∷ (codes "source", str (codes "rebekah-gateway"))
        ∷ (codes "stale", boolean false)
        ∷ (codes "id", get card (codes "id"))
        ∷ (codes "title", title_of card)
        ∷ (codes "lane", get card (codes "lane"))
        ∷ (codes "lifecycle_state", get card (codes "lifecycle_state"))
        ∷ (codes "readiness", get card (codes "readiness"))
        ∷ (codes "git", git)
        ∷ (codes "evidence", or_dict (get card (codes "evidence")))
        ∷ (codes "review", get card (codes "review"))
        ∷ (codes "handoff", get card (codes "handoff"))
        ∷ (codes "scope_collisions", or_list (get card (codes "scope_collisions")))
        ∷ (codes "attention", or_list (get card (codes "attention")))
        ∷ (codes "links", array (links ++ tasks))
        ∷ (codes "related", related)
        ∷ []))

abbrev viewed : Text → Text → Json → Json → Option (Dict Json) → Result Raised Found
viewed now id kanban detail none = ok absent
viewed now id kanban detail (some card) = detail_view now id kanban detail card >>= λ v. ok (view v)

-- `kanban` and `detail` are what `_backend_get_json` returned.
unfoldable pub change_set : Text → Text → Json → Json → Result Raised Found
change_set now id kanban detail = elim (as_dict kanban) [
  | none ↦ ok unreachable
  | some d ↦ do
    cards ← values kanban (codes "cards")
    card ← find_card id cards
    viewed now id kanban detail card
]
