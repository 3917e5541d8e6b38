-- ===== src/Adapter/Tests.antt =====
-- Runs of the adapter.
use gpu_over_ip_capnp.Base.{ℕ, ◌+◌, List, [], ◌∷◌, ◌==◌, ltb, if◌then◌else◌}
use gpu_over_ip_capnp.Adapter.{Location, Dim}

-- Two parameters, then a null pointer.
abbrev entries : ℕ → ℕ
entries i = if ltb i 2 then i + 500 else 0

abbrev location : ℕ → Location
location p = record { node_id = (if p == 500 then 3 else 0xFFFFFFFF); memory_type = "vram" }

abbrev memory : ℕ → List ℕ
memory p = 1 ∷ 0 ∷ 0 ∷ 0 ∷ 0 ∷ 0 ∷ 0 ∷ 0 ∷ []

abbrev dim : Dim
dim = record { x = 4; y = 1; z = 1 }
