-- ===== src/Controller/Updates/Memory.antt =====
-- The object in memory after a status write, and what the write keeps.
use aws_multi_eni_controller.Prelude.{◌≡◌, refl, ◌∙◌, String}
use aws_multi_eni_controller.Types.{NodeEni}
use aws_multi_eni_controller.Cluster.{Cluster}
use aws_multi_eni_controller.Controller.Updates.{merge_status, update_node_eni_status_with_retry}
use aws_multi_eni_controller.Controller.Updates.Kept.{write_with_retry_inv}
use aws_multi_eni_controller.Controller.Updates.Results.{Stores}

-- Whether or not the write succeeds, the object in memory has the attachments that the caller gave it.
pub status-attachments :
    (c : Cluster) (stores : Stores c) (n : NodeEni) (w : c.World)
    → (update_node_eni_status_with_retry c n w).1.0.attachments ≡ n.attachments
unfolding update_node_eni_status_with_retry merge_status
status-attachments c stores n w =
    write_with_retry_inv c c.update_node_eni_status merge_status
      (λ o v. o.attachments ≡ n.attachments) (λ x o v. o.attachments ≡ n.attachments)
      (λ o a v k i. stores.attachments_stored o a v k ∙ i) (λ o x v k i. i) (λ o a v k g i. i)
      (λ o x v k g i. i) (λ o v i. i) n w refl

-- A fact that a status write and a fetch keep is kept by the write with retry.
pub status-keeps :
    (c : Cluster) (P : c.World → Type 0)
    → ((name : String) (v : c.World) → P v → P (c.get_node_eni name v).1)
    → ((o : NodeEni) (v : c.World) → P v → P (c.update_node_eni_status o v).1)
    → (n : NodeEni) (w : c.World) → P w
    → P (update_node_eni_status_with_retry c n w).1.1
unfolding update_node_eni_status_with_retry merge_status
status-keeps c P by_get by_status n w h =
    write_with_retry_inv c c.update_node_eni_status merge_status (λ o v. P v) (λ x o v. P v)
      (λ o a v k i. by_status o v i) (λ o x v k i. by_status o v i)
      (λ o a v k g i. by_get o.name _ (by_status o v i))
      (λ o x v k g i. by_get o.name _ (by_status o v i)) (λ o v i. i) n w h
