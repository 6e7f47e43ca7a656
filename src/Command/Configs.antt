-- ===== src/Command/Configs.antt =====
-- flatcar.go, fcos.go, machineconfig.go and `createFileDescriptor` of root.go: the commands that
-- write a configuration for each device. An error of a command is the end of the process. The files
-- and the standard output are a parameter, as are the translation of configurations by Butane and
-- the YAML of a Talos configuration.
use machinecfg.Prelude.{String, ◌<>◌, List, [], ◌∷◌, ◌==◌, string_eq, if◌then◌else◌}
use machinecfg.Effect.{
  Outcome, Exec, Reply, good, bad, Error, pure, raise, tell, attempt, on_left, on_right, ◌>>=◌,
  ◌>>◌,
}
use machinecfg.Netbox.{Netbox}
use machinecfg.Common.Filters.{DeviceFilters}
use machinecfg.Butane.Config.{Config, translated}
use machinecfg.Butane.Flatcar.{Flatcar, create_flatcars}
use machinecfg.Butane.Fcos.{Fcos, create_fcoss}
use machinecfg.Talos.{MachineConfig, Talos, create_talos_configs}

-- `os.Create`, a write to the file that it has opened, and one to the standard output. The code
-- does not look at the errors of the writes.
pub record Disk : Type 1 where
  pub State : Type 0
  pub create : String → State → Reply (Unit {0}) × State
  pub write : String → String → State → State
  pub print : String → State → State

-- `createFileDescriptor`: the path
abbrev pub output_path : String → String → String → String
output_path dir_path filename extension = dir_path <> "/" <> filename <> "." <> extension

module _ (D : Disk) where
  abbrev change : (D.State → D.State) → Exec D.State (Unit {0})
  change f = tell (λ s. (good tt, f s))

  abbrev write_if_created :
      String → Exec D.State String → Reply (Unit {0}) → Exec D.State (Unit {0})
  write_if_created path blob (bad e) = pure tt
  write_if_created path blob (good fd) = do text ← blob; change (D.write path text)

  -- What the functions `write…` share: the text goes to the standard output where no directory is
  -- given, and a file that cannot be created is logged.
  unfoldable pub write_output :
      String → String → String → Exec D.State String → Exec D.State (Unit {0})
  write_output output_directory hostname extension blob =
      let path = output_path output_directory hostname extension in
      if output_directory == ""
      then (do text ← blob; change (D.print text))
      else (do fd ← attempt (tell (D.create path)); write_if_created path blob fd)

  module _ (translate : Config → Outcome String) where
    unfoldable pub write_flatcar_ignition : String → Flatcar → Exec D.State (Unit {0})
    unfolding write_output
    write_flatcar_ignition output_directory f =
        write_output output_directory f.hostname "ign" (translated (translate f.config))

    unfoldable pub write_fcos_ignition : String → Fcos → Exec D.State (Unit {0})
    unfolding write_output
    write_fcos_ignition output_directory f =
        write_output output_directory f.hostname "ign" (translated (translate f.config))

  -- A document that cannot be marshalled is logged.
  abbrev yaml_or_empty : Reply String → String
  yaml_or_empty (good text) = text
  yaml_or_empty (bad e) = ""

  unfoldable pub write_talos_config :
      (MachineConfig → Reply String) → String → Talos → Exec D.State (Unit {0})
  unfolding write_output
  write_talos_config marshal output_directory c =
      write_output output_directory c.hostname ".patch.yaml"
        (pure (yaml_or_empty (marshal c.config)))

  -- The loops over the configurations.
  unfoldable pub write_all :
      {A : Type 0} → (A → Exec D.State (Unit {0})) → List A → Exec D.State (Unit {0})
  write_all write [] = pure tt
  write_all write (x ∷ xs) = write x >> write_all write xs

module _ (N : Netbox) (D : Disk) where
  abbrev pub World : Type 0
  World = N.State × D.State

  -- The configurations are written only where no device has failed.
  abbrev write_unless_failed :
      {A : Type 0} → (A → Exec D.State (Unit {0})) → List A × List Error → Exec World (Unit {0})
  write_unless_failed write (configs, []) = on_right (write_all D write configs)
  write_unless_failed write (configs, e ∷ errors) = raise e

  unfoldable pub run_flatcar :
      (Config → Outcome String) → DeviceFilters → String → Exec World (Unit {0})
  unfolding write_flatcar_ignition write_all
  run_flatcar translate filters output_directory = do
    flatcars ← on_left (create_flatcars N filters)
    write_unless_failed (write_flatcar_ignition D translate output_directory) flatcars

  unfoldable pub run_fcos :
      (Config → Outcome String) → DeviceFilters → String → Exec World (Unit {0})
  unfolding write_fcos_ignition write_all
  run_fcos translate filters output_directory = do
    fcoss ← on_left (create_fcoss N filters)
    on_right (write_all D (write_fcos_ignition D translate output_directory) fcoss)

  unfoldable pub run_machineconfig :
      (MachineConfig → Reply String) → DeviceFilters → String → Exec World (Unit {0})
  unfolding write_talos_config write_all
  run_machineconfig marshal filters output_directory = do
    configs ← on_left (create_talos_configs N filters)
    write_unless_failed (write_talos_config D marshal output_directory) configs
