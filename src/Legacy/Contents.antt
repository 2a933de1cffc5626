-- ===== src/Legacy/Contents.antt =====
-- `FILES` of scripts/create-legacy-fat12.py.
use zig_os.Base.{List, [], ◌∷◌, Result, ok, ◌>>=◌}
use zig_os.Fat12.Volume.{File}
use zig_os.Workloads.Emit.{
  hello_name, init_name, cat_name, big_name, spina_name, spinb_name, fault_name, writer_name,
  service_name, orch_name, child_name, async_name, worka_name, workb_name, leaf_name, genrun_name,
  reuse_name, forker_name, execa_name, execb_name, paths_name, hello, big,
}
use zig_os.Workloads.Simple.{
  build_init_elf, build_cat_elf, build_spin_elf, build_fault_elf, build_writer_elf,
}
use zig_os.Workloads.Service.{build_service_elf}
use zig_os.Workloads.Tasks.{
  build_worka_elf, build_workb_elf, build_leaf_elf, build_async_elf, build_reuse_elf,
  build_exec_elf,
}
use zig_os.Workloads.Forker.{build_forker_elf, build_genrun_elf}
use zig_os.Workloads.Paths.{build_paths_elf}
use zig_os.Workloads.Orchestration.{build_child_elf, build_orch_elf}

unfoldable pub files : Result (List File)
files = do
  init_elf ← build_init_elf
  cat_elf ← build_cat_elf
  spina_elf ← build_spin_elf
  spinb_elf ← build_spin_elf
  fault_elf ← build_fault_elf
  writer_elf ← build_writer_elf
  service_elf ← build_service_elf
  orch_elf ← build_orch_elf
  child_elf ← build_child_elf
  async_elf ← build_async_elf
  worka_elf ← build_worka_elf
  workb_elf ← build_workb_elf
  leaf_elf ← build_leaf_elf
  genrun_elf ← build_genrun_elf
  reuse_elf ← build_reuse_elf
  forker_elf ← build_forker_elf
  execa_elf ← build_exec_elf 0xA1 1
  execb_elf ← build_exec_elf 0xB2 5
  paths_elf ← build_paths_elf
  ok (
      record { name = hello_name; content = hello }
      ∷ record { name = init_name; content = init_elf }
      ∷ record { name = cat_name; content = cat_elf }
      ∷ record { name = big_name; content = big }
      ∷ record { name = spina_name; content = spina_elf }
      ∷ record { name = spinb_name; content = spinb_elf }
      ∷ record { name = fault_name; content = fault_elf }
      ∷ record { name = writer_name; content = writer_elf }
      ∷ record { name = service_name; content = service_elf }
      ∷ record { name = orch_name; content = orch_elf }
      ∷ record { name = child_name; content = child_elf }
      ∷ record { name = async_name; content = async_elf }
      ∷ record { name = worka_name; content = worka_elf }
      ∷ record { name = workb_name; content = workb_elf }
      ∷ record { name = leaf_name; content = leaf_elf }
      ∷ record { name = genrun_name; content = genrun_elf }
      ∷ record { name = reuse_name; content = reuse_elf }
      ∷ record { name = forker_name; content = forker_elf }
      ∷ record { name = execa_name; content = execa_elf }
      ∷ record { name = execb_name; content = execb_elf }
      ∷ record { name = paths_name; content = paths_elf }
      ∷ [])
