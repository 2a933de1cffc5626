-- ===== src/Legacy/Examples.antt =====
-- The shipped volume: `FILES` against `EXPECTED`.
use zig_os.Base.{◌≡◌, refl, ltb→lt, List, [], length, Result, ok, raise, arith}
use zig_os.Base.{take, drop, replicate, slice, set_slice, range_from, bytes_eq}
use zig_os.Bytes.{
  Bytes, put, pack, pack_into, pack_fields, pack_fields_into, le_bytes, zeros, from_le, unpack_from,
  decode_ascii,
}
use zig_os.Fnv.{fnv1a32, hash_loop, round32}
use zig_os.Elf32.{build_elf, verify_elf, verify_load}
use zig_os.Workloads.Emit.{
  ◌+++◌, mov_imm, syscall, store, load_ebx, path_args, spawn, for_each, for_range, when, as_number,
  pack_difference_into, put_each,
}
use zig_os.Workloads.Simple.{
  build_init_elf, build_cat_elf, build_spin_elf, build_fault_elf, build_writer_elf,
}
use zig_os.Workloads.Service.{build_service_elf}
use zig_os.Workloads.Tasks.{
  build_worka_elf, build_workb_elf, build_leaf_elf, build_async_elf, build_reuse_elf,
  build_exec_elf,
}
use zig_os.Workloads.Forker.{build_forker_elf, build_genrun_elf}
use zig_os.Workloads.Paths.{build_paths_elf}
use zig_os.Workloads.Orchestration.{build_child_elf, build_orch_elf}
use zig_os.Fat12.Volume.{File, build_volume, cluster_count}
use zig_os.Fat12.Linked.{clusters_needed}
use zig_os.Fat12.Files.{Fits, AllNamed}
use zig_os.Legacy.Contents.{files}
use zig_os.Legacy.Verify.{expected_files, check_elf, ends_with_elf, verify_volume}
use zig_os.Legacy.Content.{
  content_checks, verify_contents, starts_with, count_loop, count, contains, check_hello, check_cat,
  check_writer, check_service, check_orch, check_child, check_async_parent, check_worka,
  check_workb, check_leaf, check_genrun, check_reuse, check_forker, check_execa, check_execb,
  check_paths,
}
use zig_os.Legacy.Checked.{
  Covers, all_done, passed_over, checked, checked_again, swapped, verify_contents-build_volume,
}
use zig_os.Legacy.Accepted.{Describes, verify_volume-build_volume}

value_of : Result (List File) → List File
value_of (ok x) = x
value_of (raise e) = []

abbrev shipped : List File
shipped = value_of files

-- The generator of every image succeeds.
files-ok : files ≡ ok shipped
unfolding value_of files build_init_elf build_cat_elf build_spin_elf build_fault_elf
    build_writer_elf build_service_elf build_orch_elf build_child_elf build_async_elf
    build_worka_elf build_workb_elf build_leaf_elf build_genrun_elf build_reuse_elf build_forker_elf
    build_exec_elf build_paths_elf build_elf ◌+++◌ mov_imm syscall store load_ebx path_args spawn
    for_each for_range when as_number pack_difference_into put_each put set_slice slice take drop
    replicate range_from zeros pack pack_into pack_fields pack_fields_into le_bytes
files-ok = refl

length-shipped : length shipped ≡ 21
unfolding value_of files build_init_elf build_cat_elf build_spin_elf build_fault_elf
    build_writer_elf build_service_elf build_orch_elf build_child_elf build_async_elf
    build_worka_elf build_workb_elf build_leaf_elf build_genrun_elf build_reuse_elf build_forker_elf
    build_exec_elf build_paths_elf build_elf ◌+++◌ mov_imm syscall store load_ebx path_args spawn
    for_each for_range when as_number pack_difference_into put_each put set_slice slice take drop
    replicate range_from zeros pack pack_into pack_fields pack_fields_into le_bytes
length-shipped = refl

clusters-shipped : clusters_needed shipped ≡ 55
unfolding value_of files build_init_elf build_cat_elf build_spin_elf build_fault_elf
    build_writer_elf build_service_elf build_orch_elf build_child_elf build_async_elf
    build_worka_elf build_workb_elf build_leaf_elf build_genrun_elf build_reuse_elf build_forker_elf
    build_exec_elf build_paths_elf build_elf ◌+++◌ mov_imm syscall store load_ebx path_args spawn
    for_each for_range when as_number pack_difference_into put_each put set_slice slice take drop
    replicate range_from zeros pack pack_into pack_fields pack_fields_into le_bytes clusters_needed
    cluster_count
clusters-shipped = refl

named-shipped : AllNamed shipped
unfolding value_of files build_init_elf build_cat_elf build_spin_elf build_fault_elf
    build_writer_elf build_service_elf build_orch_elf build_child_elf build_async_elf
    build_worka_elf build_workb_elf build_leaf_elf build_genrun_elf build_reuse_elf build_forker_elf
    build_exec_elf build_paths_elf build_elf ◌+++◌ mov_imm syscall store load_ebx path_args spawn
    for_each for_range when as_number pack_difference_into put_each put set_slice slice take drop
    replicate range_from zeros pack pack_into pack_fields pack_fields_into le_bytes
named-shipped = (
  refl,
  (
    refl,
    (
      refl,
      (
        refl,
        (
          refl,
          (
            refl,
            (
              refl,
              (
                refl,
                (
                  refl,
                  (
                    refl,
                    (
                      refl,
                      (
                        refl,
                        (refl, (refl, (refl, (refl, (refl, (refl, (refl, (refl, (refl, tt))))))))),
                      ),
                    ),
                  ),
                ),
              ),
            ),
          ),
        ),
      ),
    ),
  ),
)

shipped-Fits : Fits shipped
shipped-Fits = record {
  named = named-shipped;
  slots = omega (arith, length-shipped);
  clusters = omega (arith, clusters-shipped);
}

shipped-Describes : Describes 2 shipped expected_files
unfolding value_of files build_init_elf build_cat_elf build_spin_elf build_fault_elf
    build_writer_elf build_service_elf build_orch_elf build_child_elf build_async_elf
    build_worka_elf build_workb_elf build_leaf_elf build_genrun_elf build_reuse_elf build_forker_elf
    build_exec_elf build_paths_elf build_elf ◌+++◌ mov_imm syscall store load_ebx path_args spawn
    for_each for_range when as_number pack_difference_into put_each put set_slice slice take drop
    replicate range_from zeros pack pack_into pack_fields pack_fields_into le_bytes cluster_count
    fnv1a32 hash_loop round32 check_elf ends_with_elf bytes_eq verify_elf verify_load unpack_from
    from_le decode_ascii
shipped-Describes = (
  refl,
  ltb→lt 0 _ refl,
  refl,
  (
    refl,
    ltb→lt 0 _ refl,
    refl,
    (
      refl,
      ltb→lt 0 _ refl,
      refl,
      (
        refl,
        ltb→lt 0 _ refl,
        refl,
        (
          refl,
          ltb→lt 0 _ refl,
          refl,
          (
            refl,
            ltb→lt 0 _ refl,
            refl,
            (
              refl,
              ltb→lt 0 _ refl,
              refl,
              (
                refl,
                ltb→lt 0 _ refl,
                refl,
                (
                  refl,
                  ltb→lt 0 _ refl,
                  refl,
                  (
                    refl,
                    ltb→lt 0 _ refl,
                    refl,
                    (
                      refl,
                      ltb→lt 0 _ refl,
                      refl,
                      (
                        refl,
                        ltb→lt 0 _ refl,
                        refl,
                        (
                          refl,
                          ltb→lt 0 _ refl,
                          refl,
                          (
                            refl,
                            ltb→lt 0 _ refl,
                            refl,
                            (
                              refl,
                              ltb→lt 0 _ refl,
                              refl,
                              (
                                refl,
                                ltb→lt 0 _ refl,
                                refl,
                                (
                                  refl,
                                  ltb→lt 0 _ refl,
                                  refl,
                                  (
                                    refl,
                                    ltb→lt 0 _ refl,
                                    refl,
                                    (
                                      refl,
                                      ltb→lt 0 _ refl,
                                      refl,
                                      (
                                        refl,
                                        ltb→lt 0 _ refl,
                                        refl,
                                        (refl, ltb→lt 0 _ refl, refl, tt),
                                      ),
                                    ),
                                  ),
                                ),
                              ),
                            ),
                          ),
                        ),
                      ),
                    ),
                  ),
                ),
              ),
            ),
          ),
        ),
      ),
    ),
  ),
)

verify_volume-build_volume_example :
    (volume : Bytes) × (build_volume 256 shipped ≡ ok volume)
    × (verify_volume expected_files volume ≡ ok tt)
verify_volume-build_volume_example =
    verify_volume-build_volume shipped expected_files shipped-Fits (omega (arith, length-shipped))
      (omega (arith, clusters-shipped)) shipped-Describes

-- `content_checks` on `FILES`.
shipped-Covers : Covers 2 shipped content_checks
unfolding value_of files build_init_elf build_cat_elf build_spin_elf build_fault_elf
    build_writer_elf build_service_elf build_orch_elf build_child_elf build_async_elf
    build_worka_elf build_workb_elf build_leaf_elf build_genrun_elf build_reuse_elf build_forker_elf
    build_exec_elf build_paths_elf build_elf ◌+++◌ mov_imm syscall store load_ebx path_args spawn
    for_each for_range when as_number pack_difference_into put_each put set_slice slice take drop
    replicate range_from zeros pack pack_into pack_fields pack_fields_into le_bytes cluster_count
    fnv1a32 hash_loop round32 check_elf ends_with_elf bytes_eq verify_elf verify_load unpack_from
    from_le decode_ascii starts_with count_loop count contains check_hello check_cat check_writer
    check_service check_orch check_child check_async_parent check_worka check_workb check_leaf
    check_genrun check_reuse check_forker check_execa check_execb check_paths
shipped-Covers = checked refl refl (ltb→lt 0 _ refl) refl (
    passed_over (
      checked refl refl (ltb→lt 0 _ refl) refl (
        passed_over (
          passed_over (
            passed_over (
              passed_over (
                checked refl refl (ltb→lt 0 _ refl) refl (
                  checked refl refl (ltb→lt 0 _ refl) refl (
                    checked refl refl (ltb→lt 0 _ refl) refl (
                      checked refl refl (ltb→lt 0 _ refl) refl (
                        checked refl refl (ltb→lt 0 _ refl) refl (
                          checked refl refl (ltb→lt 0 _ refl) refl (
                            checked refl refl (ltb→lt 0 _ refl) refl (
                              checked refl refl (ltb→lt 0 _ refl) refl (
                                checked refl refl (ltb→lt 0 _ refl) refl (
                                  checked refl refl (ltb→lt 0 _ refl) refl (
                                    checked refl refl (ltb→lt 0 _ refl) refl (
                                      checked_again refl refl (ltb→lt 0 _ refl) refl (
                                        swapped (
                                          checked refl refl (ltb→lt 0 _ refl) refl (
                                            checked_again refl refl (ltb→lt 0 _ refl) refl (
                                              checked refl refl (ltb→lt 0 _ refl) refl (
                                                checked refl refl (ltb→lt 0 _ refl) refl
                                                  all_done)))))))))))))))))))))))

verify_contents-build_volume_example :
    (volume : Bytes) × (build_volume 256 shipped ≡ ok volume)
    × (verify_contents volume content_checks ≡ ok tt)
verify_contents-build_volume_example =
    verify_contents-build_volume 256 shipped content_checks (omega arith) shipped-Fits
      shipped-Covers
