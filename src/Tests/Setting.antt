-- ===== src/Tests/Setting.antt =====
-- A JVM that has all it needs, servers, and the state before the first call.
use my_stest.Base.{
  ℕ, pos, negsuc, true, none, some, [], ◌∷◌, ◌≡◌, refl, Text, arith, ◌==◌, if◌then◌else◌, lookup,
}
use my_stest.CredentialCache
use my_stest.World.Calls.{
  JString, Stat, Call, Reply, Env, smbc_new_context, smbc_init_context, smbc_read, smbc_write,
}
use my_stest.World.State.{State}
use my_stest.Libsmbclient.Contract.{allows, FollowsHeader}
use my_stest.JniHelper.LifecycleLaws.{FailsToInit, Works}
use my_stest.JniHelper.Ready.{IsHealthy, SetsErrno, IsReady}

abbrev pub status : Stat
status = record {
  st_dev = pos 1;
  st_ino = pos 77;
  st_mode = pos 0o100755;
  st_nlink = pos 1;
  st_uid = pos 0;
  st_gid = pos 0;
  st_rdev = pos 0;
  st_size = pos 4096;
  st_atime = pos 5;
  st_mtime = pos 6;
  st_ctime = pos 7;
  st_blksize = pos 512;
  st_blocks = pos 8;
}

-- Every call fails with the error number.
abbrev pub failure : ℕ → Call → Reply
failure err c = record {
  result = negsuc 0;
  pointer = 0;
  error = pos err;
  entry = none;
  status = status;
}

-- Every call works.
abbrev pub success : Call → Reply
success c = record {
  result = pos 0;
  pointer = 9;
  error = pos 0;
  entry = some (record { smbc_type = 8; comment = b'c' ∷ []; name = b'n' ∷ [] });
  status = status;
}

-- Every call works but `smbc_init_context`.
abbrev pub no_init : Call → Reply
no_init (smbc_init_context c) = record (success (smbc_init_context c)) { pointer = 0 }
no_init c = success c

-- Every call works, and `smbc_init_context` gives back its context, with EBADF for NULL.
abbrev pub documented : Call → Reply
documented (smbc_init_context c) = record (success (smbc_init_context c)) {
  pointer = c;
  error = pos 9;
}
documented c = success c

abbrev pub serving : (Call → Reply) → Env
serving replies = record {
  reply = λ _ c. replies c;
  new_address = λ _. 3;
  get_string_utf_chars = λ _ _. true;
  find_class = λ _ _. true;
  new_global_ref = λ _ _. true;
  get_method_id = λ _ _ _ _. true;
  new_string_utf = λ _ _. true;
  new_object = λ _ _ _ _. true;
  get_direct_buffer_address = λ _ _. 64;
}

pub serving-IsHealthy : (replies : Call → Reply) → IsHealthy (serving replies)
serving-IsHealthy replies = record {
  finds = λ _ _. refl;
  globalises = λ _ _. refl;
  has_constructor = λ _ _ _. refl;
  makes_string = λ _ _. refl;
  makes_object = λ _ _ _ _. refl;
}

pub failing-SetsErrno : SetsErrno (serving (failure 2))
failing-SetsErrno = record {
  on_negative = λ _ _ _. omega arith;
  on_closedir = λ _ _ _. omega arith;
}

pub working-SetsErrno : SetsErrno (serving success)
working-SetsErrno = record { on_negative = λ _ _ h. cc; on_closedir = λ _ _ h. cc }

pub no_init-FailsToInit : FailsToInit (serving no_init) 3 9
no_init-FailsToInit = record {
  client_not_null = omega arith;
  context_not_null = omega arith;
  allocates = λ _. refl;
  creates = λ _. refl;
  fails = λ _. refl;
  frees_first = λ _. refl;
}

pub success-Works : Works (serving success) 3 9
success-Works = record {
  client_not_null = omega arith;
  context_not_null = omega arith;
  allocates = λ _. refl;
  creates = λ _. refl;
  initialises = λ _. refl;
  frees_well = λ _ _. refl;
}

documented-allows : (c : Call) → allows c (documented c) ≡ true
unfolding allows
documented-allows smbc_new_context = refl
documented-allows (smbc_init_context c) = ground arith
documented-allows (smbc_read fd buffer size) = ground arith
documented-allows (smbc_write fd buffer size) = ground arith
documented-allows _ = refl

pub documented-FollowsHeader : FollowsHeader (serving documented)
documented-FollowsHeader = record { documented = λ t c. documented-allows c }

-- One cache at address 4, to which `credentialCache_` points.
abbrev pub start : State
start = record {
  trace = [];
  errno = pos 0;
  class_cache = [];
  class_statics = λ _. none;
  method_statics = λ _. none;
  caches = λ p. if p == 4 then some CredentialCache.empty else none;
  clients = λ _. none;
  credential_cache = 4;
}

pub start-IsReady : IsReady start
unfolding lookup
start-IsReady = record { cached = λ _. tt; classes = λ _. tt; methods = λ _. tt }

abbrev pub jstring : ℕ → Text → JString
jstring ref chars = record { ref = ref; chars = chars }
