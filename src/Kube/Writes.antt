-- ===== src/Kube/Writes.antt =====
-- Which calls store the content of an object.
use k8s_object_syncer.Base.{◌≡◌, ◌⊎◌, Bool, true, false}
use k8s_object_syncer.Kube.Server.{Kube, Patch}
use k8s_object_syncer.Kube.Client.{Request, Call, patch_object, create_object, replace_object}

-- JSON patches and deletions do not count: the first only take finalizers away.
abbrev pub is_write : {T Op : Type 0} → Request T Op → Bool
is_write (create_object api pp o) = true
is_write (replace_object api name pp o) = true
is_write (patch_object api name pp (Patch.apply o)) = true
is_write _ = false

-- A call that writes nothing, or is allowed otherwise.
abbrev pub QuietOr : (K : Kube) → (Call K → Type 0) → Call K → Type 0
QuietOr K R c = (is_write c.request ≡ false) ⊎ R c
