-- ===== src/Tinkerbell/Patches.antt =====
-- pxe.go and clean.go: one change, made to one Hardware object or to all of a namespace.
pub mod Laws
use machinecfg.Prelude.{
  String, ◌<>◌, Bool, true, false, not, Option, none, some, List, [], ◌∷◌, map, ◌==◌, string_eq,
  if◌then◌else◌,
}
use machinecfg.Effect.{Exec, pure, ask, tell, wrap, ◌>>=◌, ◌>>◌}
use machinecfg.Kube.{Kube, Hardware, HardwareInterface, Netboot}

abbrev netboot_or_new : Option Netboot → Netboot
netboot_or_new none = record { allow_pxe = none; allow_workflow = none }
netboot_or_new (some n) = n

abbrev pub allow_pxe_interface : HardwareInterface → HardwareInterface
allow_pxe_interface i = record i {
  netboot = some (record (netboot_or_new i.netboot) { allow_pxe = some true });
}

-- The change of `patchAllowPXE`.
unfoldable pub set_allow_pxe : Hardware → Hardware
set_allow_pxe hw = record hw { interfaces = map allow_pxe_interface hw.interfaces }

-- The changes of `CleanUserData` and `CleanVendorData`.
unfoldable pub clear_user_data : Hardware → Hardware
clear_user_data hw = record hw { user_data = none }

unfoldable pub clear_vendor_data : Hardware → Hardware
clear_vendor_data hw = record hw { vendor_data = none }

module _ (K : Kube) (mutate : Hardware → Hardware) where
  -- `patchAllowPXE` and `patchField`
  unfoldable pub patch_hardware : Hardware → Exec K.State (Unit {0})
  patch_hardware hw = do
    patched ←
        wrap (λ t. "cannot patch Hardware " <> hw.namespace <> "/" <> hw.name <> ": " <> t)
          (tell (K.hardware_patch hw (mutate hw)))
    pure tt

  -- The loop stops at the first error.
  unfoldable pub patch_all : List Hardware → Exec K.State (Unit {0})
  patch_all [] = pure tt
  patch_all (hw ∷ hws) = do
    wrap (λ t. "failed to patch Hardware " <> hw.name <> ": " <> t) (patch_hardware hw)
    patch_all hws

  -- `cleanField`, and the same code in `AllowPXE`.
  unfoldable pub patch_one_or_all : String → String → Exec K.State (Unit {0})
  patch_one_or_all namespace hostname =
      if not (hostname == "")
      then (do
        hw ←
            wrap (λ t. "cannot get Hardware " <> namespace <> "/" <> hostname <> ": " <> t)
              (ask (K.hardware_get namespace hostname))
        patch_hardware hw)
      else (do
        hws ←
            wrap (λ t. "cannot list Hardware in namespace " <> namespace <> ": " <> t)
              (ask (K.hardware_list namespace))
        patch_all hws)

module _ (K : Kube) where
  unfoldable pub allow_pxe : String → String → Exec K.State (Unit {0})
  allow_pxe namespace hostname = patch_one_or_all K set_allow_pxe namespace hostname

  unfoldable pub clean_user_data : String → String → Exec K.State (Unit {0})
  clean_user_data namespace hostname = patch_one_or_all K clear_user_data namespace hostname

  unfoldable pub clean_vendor_data : String → String → Exec K.State (Unit {0})
  clean_vendor_data namespace hostname = patch_one_or_all K clear_vendor_data namespace hostname
