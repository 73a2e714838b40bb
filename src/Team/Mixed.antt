-- ===== src/Team/Mixed.antt =====
-- A tree of team nodes of which some run the C++ program and the others the Python program.
use mini2_anu_asim.Prelude.{ℕ, ◌≡◌, refl, ap, ◌∙◌, String, Bool, true, false, List, [], ◌∷◌}
use mini2_anu_asim.Node.Servicer.{Query, Answer, rpc_error, Stub, fetch}
use mini2_anu_asim.Node.Cluster.{
  Tree, Forest, node, unreachable, nil, cons, tree_id, answer_of, servicer_of, call, stubs_of,
}
use mini2_anu_asim.Team.{TeamService, fetch_all}
use mini2_anu_asim.Team.Agrees.{fetch_all-fetch}

abbrev pub service_of : List ℕ → List Stub → TeamService
service_of payload stubs = record {
  payload = payload;
  child_stubs = stubs;
  req_count = 0;
  total_ns = 0;
}

-- The call of a node that runs the C++ program, or the Python program.
unfoldable pub call_node : Bool → String → List ℕ → List Stub → Query → Answer
unfolding fetch_all fetch
call_node true id payload stubs q =
    answer_of (fetch_all (λ _. false) 0 q (service_of payload stubs)).0
call_node false id payload stubs q =
    answer_of (fetch (λ _. true) 0 q (servicer_of id payload stubs)).0

-- The call of a node from its parent; `cpp` says which nodes run the C++ program.
unfoldable mutual
  unfolding call_node

  pub call_mixed : (String → Bool) → Tree → Query → Answer
  call_mixed cpp (node id payload kids) q = call_node (cpp id) id payload (stubs_mixed cpp kids) q
  call_mixed cpp (unreachable id details) q = rpc_error details

  pub stubs_mixed : (String → Bool) → Forest → List Stub
  stubs_mixed cpp nil = []
  stubs_mixed cpp (cons t kids) =
      record { id = tree_id t; fetch = λ q. call_mixed cpp t q } ∷ stubs_mixed cpp kids

call_node_python :
    (b : Bool) (id : String) (payload : List ℕ) (stubs : List Stub) (q : Query)
    → call_node b id payload stubs q
      ≡ answer_of (fetch (λ _. true) 0 q (servicer_of id payload stubs)).0
unfolding call_node
call_node_python true id payload stubs q =
    ap answer_of
      (fetch_all-fetch (λ _. true) (λ _. false) q (λ _. refl) (λ _. refl) 0
        (servicer_of id payload stubs) (service_of payload stubs) refl refl refl refl).0
call_node_python false id payload stubs q = refl

mutual
  unfolding call_mixed call

  -- Whichever nodes run which program, a call at the root of a tree returns the same.
  pub call_mixed-call : (cpp : String → Bool) (t : Tree) (q : Query) → call_mixed cpp t q ≡ call t q
  call_mixed-call cpp (node id payload kids) q =
      call_node_python (cpp id) id payload (stubs_mixed cpp kids) q
      ∙ ap (λ stubs. answer_of (fetch (λ _. true) 0 q (servicer_of id payload stubs)).0)
          (stubs_mixed-stubs_of cpp kids)
  call_mixed-call cpp (unreachable id details) q = refl

  pub stubs_mixed-stubs_of :
      (cpp : String → Bool) (kids : Forest) → stubs_mixed cpp kids ≡ stubs_of kids
  stubs_mixed-stubs_of cpp nil = refl
  stubs_mixed-stubs_of cpp (cons t kids) = λ i.
      record { id = tree_id t; fetch = λ q. call_mixed-call cpp t q i }
      ∷ stubs_mixed-stubs_of cpp kids i
