-- ===== src/Web/Interfaces/Laws.antt =====
-- The browser's search for an interface and the native one.
use upc.Common.{◌≡◌, refl, List, [], ◌∷◌, some, Bool-cases, inl, inr}
use upc.Protocol.{Class}
use upc.Host.Interfaces.{InterfaceDesc, has_class}
use upc.Host.Interfaces as Native
use upc.Web.Interfaces.{find_interface}

-- On a configured device the browser's search answers as the native one does.
pub find_interface_same :
    (is : List InterfaceDesc) (c : Class) → find_interface (some is) c ≡ Native.find_interface is c
unfolding find_interface Native.find_interface
find_interface_same [] c = refl
find_interface_same (i ∷ is) c = elim (Bool-cases (has_class c i)) [
  | inl same ↦ rw same refl
  | inr other ↦ rw other (find_interface_same is c)
]
