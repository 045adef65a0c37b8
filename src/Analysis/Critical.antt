-- ===== src/Analysis/Critical.antt =====
-- libtatum/tatum/timing_paths.cpp: the critical path delay of each pair of clock domains, from the slacks
-- of a setup analysis.
pub mod Best
use tatum.Prelude.{not, ◌&&◌, none, List, [], ◌∷◌, if◌then◌else◌}
use tatum.Result.{Result, ok, thrown, Message, throw_if, ◌>>=◌, ◌>>◌}
use tatum.Container.{at, same_id}
use tatum.Time.{Float, valid}
use tatum.Graph.{TimingGraph, NodeId, logical_outputs}
use tatum.Tags.{tags_of}
use tatum.Tags.Tag.{TimingTag, DomainId, slack}
use tatum.Constraints.{TimingConstraints, setup_constraint}
use tatum.Analysis.{Tables}

-- base/TimingType.hpp and TimingPathInfo of report/TimingPath.hpp.
pub data TimingType : Type 0 where
  setup hold unknown : TimingType

pub record TimingPathInfo (F : Float) : Type 0 where
  pub path_type : TimingType
  pub delay : F.Scalar
  pub path_slack : F.Scalar
  pub startpoint : NodeId
  pub endpoint : NodeId
  pub launch_domain : DomainId
  pub capture_domain : DomainId

module _ (F : Float) where
  -- Replaces the path of the same domains if it has less delay, or adds the path at the end.
  pub record_path : TimingPathInfo F → List (TimingPathInfo F) → List (TimingPathInfo F)
  record_path path [] = path ∷ []
  record_path path (elem ∷ cpds) =
      let later = record_path path cpds in
      if same_id elem.launch_domain path.launch_domain
        && same_id elem.capture_domain path.capture_domain
      then (if F.lt elem.delay path.delay then path ∷ cpds else elem ∷ cpds)
      else elem ∷ later

  module _ (tc : TimingConstraints F) where
    pub critical_path : NodeId → TimingTag F → Result (TimingPathInfo F)
    critical_path node_id slack_tag = do
      throw_if (not (valid F slack_tag.time)) (thrown Message.bad_slack node_id none)
      let constraint =
          setup_constraint F tc slack_tag.launch_clock_domain slack_tag.capture_clock_domain none
      throw_if (not (valid F constraint)) (thrown Message.bad_constraint node_id none)
      let cpd = F.sub constraint slack_tag.time
      throw_if (not (valid F cpd)) (thrown Message.bad_cpd node_id none)
      ok (record {
        path_type = setup;
        delay = cpd;
        path_slack = slack_tag.time;
        startpoint = none;
        endpoint = node_id;
        launch_domain = slack_tag.launch_clock_domain;
        capture_domain = slack_tag.capture_clock_domain;
      })

    -- The loop over the slacks of an output, and the loop over the outputs.
    pub paths_of_node :
        NodeId → List (TimingTag F) → List (TimingPathInfo F) → Result (List (TimingPathInfo F))
    unfolding critical_path record_path
    paths_of_node node_id [] cpds = ok cpds
    paths_of_node node_id (slack_tag ∷ slack_tags) cpds = do
      path ← critical_path node_id slack_tag
      paths_of_node node_id slack_tags (record_path path cpds)

    pub paths_of_nodes :
        Tables F → List NodeId → List (TimingPathInfo F) → Result (List (TimingPathInfo F))
    unfolding paths_of_node
    paths_of_nodes s [] cpds = ok cpds
    paths_of_nodes s (node_id ∷ nodes) cpds = do
      t ← at s.node_slacks node_id
      slack_tags ← tags_of F t slack
      cpds' ← paths_of_node node_id slack_tags cpds
      paths_of_nodes s nodes cpds'

    pub find_critical_paths : TimingGraph → Tables F → Result (List (TimingPathInfo F))
    unfolding paths_of_nodes
    find_critical_paths tg s = do nodes ← logical_outputs tg; paths_of_nodes s nodes []
