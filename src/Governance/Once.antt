-- ===== src/Governance/Once.antt =====
-- Decisions are made once: any sequence of requests.
use project_os_agentic_agile.Base.{
  ℕ, String, Bool, false, not, List, [], ◌∷◌, Option, none, some, ◌≡◌, find, find-append, any,
  coalesce, strip_text, truthy,
}
use project_os_agentic_agile.Governance.{
  is_open_status, Decision, Governance, ◌>>=◌, check, is_decision, append_governance_decision_event,
  action_named, kind_named,
}
use project_os_agentic_agile.Governance.Texts.{require_safe_id, clean_text, clean_actor}
use project_os_agentic_agile.Governance.Answers.{approve_decision, reject_decision}
use project_os_agentic_agile.Governance.Opening.{
  insert_governance_decision, put_decision, existing_or, open_decision, safe_target, check_target,
  find_last, is_pending_request,
}
use project_os_agentic_agile.Governance.Decided.{
  Holds, Holds-bind, Stays, approve_decision-Stays, reject_decision-Stays,
}

existing_or-Stays :
    (k : String) (d : Decision) (g : Governance) (o : Option Decision)
    (new : Option (Decision × Governance))
    → Stays k d g
    → Holds (λ (x : Decision × Governance). Stays k d x.1) new
    → Holds (λ (x : Decision × Governance). Stays k d x.1) (existing_or g o new)
existing_or-Stays k d g (some e) new found h = found
existing_or-Stays k d g none new found h = h

insert_governance_decision-Stays :
    (k : String) (d n : Decision) (g : Governance)
    → Stays k d g
    → Holds (Stays k d) (insert_governance_decision n g)
unfolding insert_governance_decision append_governance_decision_event
insert_governance_decision-Stays k d n g found =
    Holds-bind (Stays k d) (check (not (any (is_decision n.decision_human_id) g.decisions))) _
      (λ _ _. find-append (is_decision k) g.decisions (n ∷ []) found)

inserted-Stays :
    (k : String) (d n : Decision) (g : Governance)
    → Stays k d g
    → Holds
        (λ (x : Decision × Governance). Stays k d x.1)
        (insert_governance_decision n g >>= λ (after : Governance). some (n, after))
inserted-Stays k d n g found =
    Holds-bind (λ (x : Decision × Governance). Stays k d x.1) (insert_governance_decision n g) _
      (λ after h. let kept = insert_governance_decision-Stays k d n g found in rw h at kept)

open_decision-Stays :
    (k : String) (d : Decision) (now : ℕ) (fresh pid action reason impact by kind : String)
    (target : Option String) (g : Governance)
    → Stays k d g
    → Holds
        (λ (x : Decision × Governance). Stays k d x.1)
        (open_decision now fresh pid action reason impact by kind target g)
unfolding open_decision put_decision
open_decision-Stays k d now fresh pid action reason impact by kind target g found =
    let P = λ (x : Decision × Governance). Stays k d x.1 in
    Holds-bind P (require_safe_id pid) _ (λ p _.
      Holds-bind P (action_named (strip_text action)) _ (λ key _.
        Holds-bind P (kind_named (strip_text (coalesce (truthy (some kind)) "none"))) _ (λ t _.
          Holds-bind P (safe_target (truthy target)) _ (λ o _.
            Holds-bind P (check_target action t p o g) _ (λ _ _.
              existing_or-Stays k d g (find_last (is_pending_request p key o) g.decisions) _ found (
                Holds-bind P (clean_text reason) _ (λ why _.
                  Holds-bind P (clean_text impact) _ (λ what _.
                    Holds-bind P (clean_actor by) _ (λ who _. inserted-Stays k d _ g found)))))))))

-- A request of the decisions' interface.
pub data Request : Type 0 where
  opens :
      (now : ℕ)
      → (fresh project_human_id action reason impact requested_by target_kind : String)
      → (target_human_id : Option String) → Request
  approves :
      (now later : ℕ)
      → (project_human_id decision_human_id : String) → (confirmed : Bool) → (actor reason : String)
      → Request
  rejects :
      (now : ℕ)
      → (project_human_id decision_human_id : String) → (confirmed : Bool) → (actor reason : String)
      → Request

abbrev opened_or : Governance → Option (Decision × Governance) → Governance
opened_or g none = g
opened_or g (some (d, after)) = after

-- A request that raises leaves everything as it was.
abbrev pub apply_request : Request → Governance → Governance
apply_request (opens now fresh pid action reason impact by kind target) g =
    opened_or g (open_decision now fresh pid action reason impact by kind target g)
apply_request (approves now later pid hid confirmed actor reason) g =
    coalesce (approve_decision now later pid hid confirmed actor reason g) g
apply_request (rejects now pid hid confirmed actor reason) g =
    coalesce (reject_decision now pid hid confirmed actor reason g) g

abbrev pub apply_requests : List Request → Governance → Governance
apply_requests [] g = g
apply_requests (r ∷ rs) g = apply_requests rs (apply_request r g)

coalesce-Stays :
    (k : String) (d : Decision) (g : Governance) (o : Option Governance)
    → Stays k d g
    → Holds (Stays k d) o
    → Stays k d (coalesce o g)
coalesce-Stays k d g none found h = found
coalesce-Stays k d g (some after) found h = h

opened_or-Stays :
    (k : String) (d : Decision) (g : Governance) (o : Option (Decision × Governance))
    → Stays k d g
    → Holds (λ (x : Decision × Governance). Stays k d x.1) o
    → Stays k d (opened_or g o)
opened_or-Stays k d g none found h = found
opened_or-Stays k d g (some (e, after)) found h = h

apply_request-Stays :
    (k : String) (d : Decision) (r : Request) (g : Governance)
    → is_open_status d.status ≡ false
    → Stays k d g
    → Stays k d (apply_request r g)
apply_request-Stays k d (opens now fresh pid action reason impact by kind target) g closed found =
    opened_or-Stays k d g (open_decision now fresh pid action reason impact by kind target g) found
      (open_decision-Stays k d now fresh pid action reason impact by kind target g found)
apply_request-Stays k d (approves now later pid hid confirmed actor reason) g closed found =
    coalesce-Stays k d g (approve_decision now later pid hid confirmed actor reason g) found
      (approve_decision-Stays k d now later pid hid confirmed actor reason g closed found)
apply_request-Stays k d (rejects now pid hid confirmed actor reason) g closed found =
    coalesce-Stays k d g (reject_decision now pid hid confirmed actor reason g) found
      (reject_decision-Stays k d now pid hid confirmed actor reason g closed found)

-- A decision that was approved or rejected keeps its row, with its status, actor, reason and result,
-- through every sequence of openings, approvals and rejections, of any project and by anyone.
pub apply_requests-find :
    (k : String) (d : Decision) (rs : List Request) (g : Governance)
    → is_open_status d.status ≡ false
    → find (is_decision k) g.decisions ≡ some d
    → find (is_decision k) (apply_requests rs g).decisions ≡ some d
apply_requests-find k d [] g closed found = found
apply_requests-find k d (r ∷ rs) g closed found =
    apply_requests-find k d rs (apply_request r g) closed (apply_request-Stays k d r g closed found)
