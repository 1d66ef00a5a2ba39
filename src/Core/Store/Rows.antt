-- ===== src/Core/Store/Rows.antt =====
-- The rows of core/store.py, and core/identity.py, whose key the rows of a dispatch carry.
use quaestor.Base.{ℕ, String, Bool, Option, none, List, [], ◌∷◌, ◌++◌, find, ◌==◌, sorted_set}
use quaestor.Core.OwnerChannel.{Grant}
use quaestor.Core.Lease.{Lease}

-- What the code takes from outside: the canonical spelling of a path, lower case, and the digest of
-- the canonical JSON of a dispatch's key material.
pub record KeyMaterial : Type 0 where
  pub workflow_id : String
  pub step_id : String
  pub prompt_sha256 : String
  pub repo_id : String
  pub worktree_path : String
  pub expected_branch : String
  pub expected_head : String
  pub authority_profile : String
  pub capabilities : List String

pub record Host : Type 0 where
  pub canonical_path : String → String
  pub lower : String → String
  pub sha256_obj : KeyMaterial → String

-- DispatchIdentity has the same fields, as the caller spelled them.
abbrev pub DispatchIdentity : Type 0
DispatchIdentity = KeyMaterial

-- DispatchIdentity.key_material; the salt is part of the digest.
unfoldable pub key_material : Host → DispatchIdentity → KeyMaterial
key_material host identity = record identity {
  worktree_path = host.canonical_path identity.worktree_path;
  expected_head = host.lower identity.expected_head;
  capabilities = sorted_set identity.capabilities;
}

unfoldable pub dispatch_key : Host → DispatchIdentity → String
dispatch_key host identity = host.sha256_obj (key_material host identity)

pub record Workflow : Type 0 where
  pub workflow_id : String
  pub title : String
  pub created_at : ℕ

pub record Dispatch : Type 0 where
  pub dispatch_key : String
  pub material : KeyMaterial
  pub created_at : ℕ

pub record Attempt : Type 0 where
  pub run_id : String
  pub dispatch_key : String
  pub attempt_no : ℕ
  pub run_nonce : String
  pub execution_state : String
  pub is_write : Bool
  pub created_at : ℕ
  pub updated_at : ℕ
  pub terminal_at : Option ℕ
  pub refusal_reason : Option String

pub record Event : Type 0 where
  pub at : ℕ
  pub run_id : String
  pub dispatch_key : String
  pub kind : String
  pub from_state : Option String
  pub to_state : Option String

pub record Store : Type 0 where
  pub workflows : List Workflow
  pub dispatches : List Dispatch
  pub attempts : List Attempt
  pub leases : List Lease
  pub grants : List Grant
  pub events : List Event

abbrev pub empty : Store
empty = record {
  workflows = [];
  dispatches = [];
  attempts = [];
  leases = [];
  grants = [];
  events = [];
}

-- append_event.
abbrev pub log : Event → Store → Store
log e s = record s { events = s.events ++ e ∷ [] }

abbrev pub event : ℕ → String → String → String → Event
event now run_id key kind = record {
  at = now;
  run_id = run_id;
  dispatch_key = key;
  kind = kind;
  from_state = none;
  to_state = none;
}

-- get_run.
unfoldable pub get_run : Store → String → Option Attempt
get_run s run_id = find (λ a. a.run_id == run_id) s.attempts

-- get_dispatch.
unfoldable pub get_dispatch : Store → String → Option Dispatch
get_dispatch s key = find (λ d. d.dispatch_key == key) s.dispatches
