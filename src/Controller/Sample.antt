-- ===== src/Controller/Sample.antt =====
-- A small cluster in which the examples run: EC2 as a list of the ENIs that exist, the server's copy
-- of one NodeENI as whether it has the finalizer, a clock that counts.
pub mod Laws
use aws_multi_eni_controller.Prelude.{
  ℕ, ◌+◌, ◌≡◌, refl, String, Bool, true, false, List, [], ◌∷◌, Option, none, some, ◌⊎◌, inl, inr,
  if◌then◌else◌, contains_string, remove_string, contains_string-remove, eq_refl, str_eq, arith,
}
use aws_multi_eni_controller.Prelude.Int.{pos}
use aws_multi_eni_controller.Prelude.State.{Call, Result, ok, err}
use aws_multi_eni_controller.Types.{NodeEniSpec, EniAttachment, NodeEni}
use aws_multi_eni_controller.Wait.{plain_backoff}
use aws_multi_eni_controller.Cluster.{
  Cluster, Config, Node, NetworkInterface, InterfaceState, ApiError, not_found,
}
use aws_multi_eni_controller.Controller.Cleanup.Laws.{EniLaws}
use aws_multi_eni_controller.Controller.Updates.{node_eni_finalizer}
use aws_multi_eni_controller.Controller.Parallel.{take}
use aws_multi_eni_controller.Controller.Coordinated.{Surroundings}

pub record Place : Type 0 where
  pub live : List String
  pub pinned : Bool
  pub clock : ℕ

abbrev pub interface_of : String → NetworkInterface
interface_of id = record { network_interface_id = id; status = "available"; attachment = none }

abbrev pub no_state : InterfaceState
no_state = record {
  pci_address = "";
  current_driver = "";
  iface_name = "";
  is_bound_to_dpdk = false;
}

abbrev pub describe : String → Call Place (Result (Option NetworkInterface))
describe id w = (if contains_string w.live id then ok (some (interface_of id)) else ok none, w)

abbrev pub remove_eni : String → Call Place (Option String)
remove_eni id w = (none, record w { live = remove_string w.live id })

abbrev pub spec : NodeEniSpec
spec = record {
  node_selector = [];
  subnet_id = "subnet-1";
  subnet_name = "";
  subnet_ids = [];
  subnet_names = [];
  security_group_ids = "sg-1" ∷ [];
  security_group_names = [];
  device_index = pos 1;
  delete_on_termination = true;
  description = "";
  mtu = pos 9001;
  enable_dpdk = false;
  dpdk_driver = "";
  dpdk_resource_name = "";
  dpdk_pci_address = "";
}

abbrev pub attachment_of : String → EniAttachment
attachment_of id = record {
  node_id = "node-1";
  instance_id = "i-1";
  eni_id = id;
  attachment_id = "attach-1";
  subnet_id = "subnet-1";
  subnet_cidr = "10.0.0.0/24";
  mtu = pos 9001;
  device_index = pos 1;
  status = "attached";
  last_updated = 0;
  dpdk_bound = false;
  dpdk_driver = "";
  dpdk_resource_name = "";
  dpdk_pci_address = "";
}

abbrev pub node_eni_of : List EniAttachment → NodeEni
node_eni_of attachments = record {
  name = "demo";
  resource_version = 1;
  deletion_timestamp = some 1;
  finalizers = node_eni_finalizer ∷ [];
  annotations = some [];
  spec = spec;
  attachments = attachments;
}

abbrev pub demo : NodeEni
demo = node_eni_of (attachment_of "eni-1" ∷ attachment_of "eni-2" ∷ [])

-- A write of the metadata, answered with the status of the server's copy.
abbrev pub store : NodeEni → Call Place (ApiError ⊎ NodeEni)
store n w = (
  inr (record n { attachments = demo.attachments }),
  record w { pinned = contains_string n.finalizers node_eni_finalizer },
)

-- The first node has the attachments, the second one has none.
abbrev pub node_one : Node
node_one = record { name = "node-1"; provider_id = "aws:///us-east-1a/i-1" }

abbrev pub node_two : Node
node_two = record { name = "node-2"; provider_id = "aws:///us-east-1a/i-2" }

abbrev pub nodes : List Node
nodes = node_one ∷ node_two ∷ []

abbrev pub place_cluster : Cluster
place_cluster = record {
  World = Place;
  backoff = plain_backoff;
  describe_eni = describe;
  detach_eni = λ id force w. (none, w);
  wait_for_eni_detachment = λ id t w. (none, w);
  delete_eni = remove_eni;
  create_eni = λ subnet groups text tags w. (ok "eni-new", w);
  attach_eni = λ id instance i d w. (ok "attach-new", w);
  describe_instance = λ id w. (ok none, w);
  get_instance_enis = λ id w. (ok [], w);
  get_subnet_id_by_name = λ name w. (ok name, w);
  get_subnet_cidr_by_id = λ id w. (ok "10.0.0.0/24", w);
  get_security_group_id_by_name = λ name w. (ok name, w);
  list_nodes = λ selector w. (ok nodes, w);
  get_node_eni = λ name w. (if w.pinned then inr demo else inl not_found, w);
  update_node_eni = store;
  update_node_eni_status = λ n w. (inr n, w);
  contains_finalizer = contains_string;
  with_finalizer = λ fs f. if contains_string fs f then fs else f ∷ fs;
  without_finalizer = remove_string;
  capture_interface_state = λ a w. (ok no_state, w);
  atomic_dpdk_unbind = λ a s w. (none, w);
  rollback_interface_state = λ a s w. (none, w);
  now = λ w. w.clock;
  sleep = λ t w. record w { clock = w.clock + t };
  parse_time = λ s. if str_eq s "early" then some 0 else none;
  format_time = λ t. "early";
}

abbrev pub short_config : Config
short_config = record {
  reconcile_period = 300;
  detachment_timeout = 15;
  max_cleanup_duration = 1800;
  default_device_index = pos 1;
  default_delete_on_termination = true;
  max_concurrent_eni_cleanup = pos 3;
}

abbrev pub IsGoneHere : String → Place → Type 0
IsGoneHere id w = contains_string w.live id ≡ false

gone_stays :
    (live : List String) (id other : String)
    → contains_string live id ≡ false
    → contains_string (remove_string live other) id ≡ false
gone_stays live id other h = ground (arith, contains_string-remove live other id)

described_gone_here :
    (id : String) (w : Place) → (describe id w).0 ≡ ok none → contains_string w.live id ≡ false
described_gone_here id w h = ground arith

no_describe_error : (id e : String) (w : Place) → (describe id w).0 ≡ err e → ⊥
no_describe_error id e w h = ground arith

removed_gone :
    (live : List String) (id : String) → contains_string (remove_string live id) id ≡ false
removed_gone live id = ground (arith, contains_string-remove live id id, eq_refl id)

none_no_error : (o : Option String) (e : String) → o ≡ none → o ≡ some e → ⊥
none_no_error o e h k = cc

pub place_laws : EniLaws place_cluster IsGoneHere
place_laws = record {
  described_none = described_gone_here;
  described_not_found = λ id e w h k. absurd (no_describe_error id e w h);
  deleted = λ id w h. removed_gone w.live id;
  deleted_not_found = λ id e w h k. absurd (none_no_error none e refl h);
  stable = λ id. record {
    by_describe = λ other w h. h;
    by_detach = λ other force w h. h;
    by_wait = λ other t w h. h;
    by_delete = λ other w h. gone_stays w.live id other h;
    by_capture = λ a w h. h;
    by_unbind = λ a s w h. h;
    by_rollback = λ a s w h. h;
    by_sleep = λ t w h. h;
  };
}

abbrev pub place : Place
place = record { live = "eni-1" ∷ "eni-2" ∷ []; pinned = true; clock = 100 }

-- Nobody else acts, the context is not done, and the workers take what there is.
abbrev pub quiet : Surroundings place_cluster
quiet = record {
  context_end = none;
  others = λ s. s;
  is_cancelled = λ s. false;
  choose = λ p. take;
  sent = none;
}
