-- ===== src/Assets/Examples.antt =====
-- The theorems on the executables that scripts/build-assets.py builds, at short programs.
use zig_os.Base.{◌≡◌, arith, List, [], ◌∷◌, length, ok}
use zig_os.Bytes.{Bytes}
use zig_os.ProcessElf.{exec, build_process, verify_process}
use zig_os.ProcessElf.Identity.{identify, verify_process-build_process}
use zig_os.ServiceElf.{build_service_image}
use zig_os.ServiceElf.Verify.{verify_service}
use zig_os.ServiceElf.Identity.{identify_service, verify_service-build_service_image}
use zig_os.Assets.{runtime_program_data, build_runtime_programs}
use zig_os.Assets.Programs.{Images, build_runtime_programs-Images}

abbrev system_call : Bytes
system_call = 0xCD ∷ 0x80 ∷ []

verify_process-build_process_example :
    (image : Bytes) × (build_process system_call exec ≡ ok image)
    × (verify_process (λ bytes. bytes) image exec
        ≡ identify (λ bytes. bytes) system_call image exec)
verify_process-build_process_example =
    verify_process-build_process (λ bytes. bytes) system_call exec (omega arith) (omega arith)

verify_service-build_service_image_example :
    (image : Bytes) × (build_service_image system_call ≡ ok image)
    × (verify_service (λ bytes. bytes) image ≡ identify_service (λ bytes. bytes) system_call image)
verify_service-build_service_image_example =
    verify_service-build_service_image (λ bytes. bytes) system_call (omega arith) (omega arith)

build_runtime_programs-Images_example :
    (programs : List (Bytes × Bytes)) × (images : List Bytes) × (runtime_program_data ≡ ok programs)
    × (length programs ≡ 12)
    × (build_runtime_programs (λ program_name. system_call) ≡ ok images)
    × Images (λ program_name. system_call) programs images
build_runtime_programs-Images_example =
    build_runtime_programs-Images (λ program_name. system_call)
      (λ program_name. (omega arith, omega arith))
