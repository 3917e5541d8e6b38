-- ===== src/Cuda.antt =====
-- The result codes of the CUDA driver API, `CUresult` of cuda.h, by their documented numbers. A
-- peer can answer any number, so a result is a number.
use gpu_over_ip_capnp.Base.{ℕ}

abbrev pub CuResult : Type 0
CuResult = ℕ

abbrev pub cuda_success : CuResult
cuda_success = 0

abbrev pub cuda_error_invalid_value : CuResult
cuda_error_invalid_value = 1

abbrev pub cuda_error_out_of_memory : CuResult
cuda_error_out_of_memory = 2

abbrev pub cuda_error_invalid_handle : CuResult
cuda_error_invalid_handle = 400

abbrev pub cuda_error_launch_failed : CuResult
cuda_error_launch_failed = 719

abbrev pub cuda_error_unknown : CuResult
cuda_error_unknown = 999
