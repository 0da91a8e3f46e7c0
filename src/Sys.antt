-- ===== src/Sys.antt =====
-- src/kernel/sys: the system calls, with log_output_size of src/kernel/log.c. What a pointer of the
-- caller points to is memory, an argument.
pub mod Written
pub mod Handlers
pub mod Memory
mod Tests
use visual_os.Base.{
  ℕ, zero, suc, ◌+◌, ◌*◌, ◌%◌, ◌^◌, Bool, true, false, not, bit_or, Option, none, some, List, [],
  ◌∷◌, ◌++◌, ◌==◌, if◌then◌else◌, add64, for_range,
}
use visual_os.Base.Run.{Run, ok, spins, out_of_fuel, overruns, Cmd, pure, gets, modify, ◌>>=◌, ◌>>◌}
use visual_os.Base.Table.{first_match}
use visual_os.Pageframe.{
  Pageframe, pageframe_request_pages, pageframe_free, memory_get_total_size, memory_get_free,
}
use visual_os.Paging.{Paging, in_pageframe, paging_get_pagetable_l4}
use visual_os.Paging.Attribute.{nearest_page, page_directory_writable, paging_set_attribute}
use visual_os.Text.{Framebuffer, Screen, module_psf1_width, text_output_size}

abbrev pub sys_fd_stdin : ℕ
sys_fd_stdin = 0

abbrev pub sys_fd_stdout : ℕ
sys_fd_stdout = 1

abbrev pub sys_fd_stderr : ℕ
sys_fd_stderr = 2

-- `struct iovec`
pub record Iovec : Type 0 where
  pub iov_base : ℕ
  pub iov_len : ℕ

-- The screen, and the bytes that were put out on the serial port, in order.
pub record Outputs : Type 0 where
  pub screen : Screen
  pub serial : List ℕ

abbrev pub in_screen : (Screen → Run Screen (Unit {0})) → Cmd Outputs (Unit {0})
in_screen m s = elim (m s.screen) [
  | ok a t ↦ ok a (record s { screen = t })
  | spins ↦ spins
  | out_of_fuel ↦ out_of_fuel
  | overruns ↦ overruns
]

unfoldable pub sys_read : (fd buf count : ℕ) → ℕ
sys_read fd buf count = if fd == sys_fd_stdin then count else 0

-- The loop of `sys_readv`, over the entries that are left, with the total so far.
unfoldable pub readv_loop : (fd : ℕ) → List Iovec → (total : ℕ) → ℕ
unfolding sys_read
readv_loop fd [] total = total
readv_loop fd (target ∷ rest) total =
    readv_loop fd rest (add64 total (sys_read fd target.iov_base target.iov_len))

unfoldable pub sys_readv : (fd : ℕ) → List Iovec → ℕ
unfolding readv_loop
sys_readv fd vec = readv_loop fd vec 0

module _ (memory : ℕ → ℕ) where
  -- `outb(LOG_PORT, str[i])` for `size` bytes from `str` on.
  unfoldable pub log_output_size : (str size : ℕ) → List ℕ → List ℕ
  log_output_size str zero serial = serial
  log_output_size str (suc size) serial = log_output_size (str + 1) size (serial ++ memory str ∷ [])

  -- Each round of text_output_size goes on by a byte or more, so it has more rounds than it needs.
  unfoldable pub sys_write : (fd buf count : ℕ) → Cmd Outputs ℕ
  unfolding log_output_size
  sys_write fd buf count =
      if fd == sys_fd_stdout
      then in_screen (text_output_size (suc count) 0 (λ i. memory (buf + i)) count) >> pure count
      else if fd == sys_fd_stderr
      then modify (λ s. record s { serial = log_output_size buf count s.serial }) >> pure count
      else pure 0

  unfoldable pub writev_loop : (fd : ℕ) → List Iovec → (total : ℕ) → Cmd Outputs ℕ
  unfolding sys_write
  writev_loop fd [] total = pure total
  writev_loop fd (target ∷ rest) total = do
    written ← sys_write fd target.iov_base target.iov_len
    writev_loop fd rest (add64 total written)

  unfoldable pub sys_writev : (fd : ℕ) → List Iovec → Cmd Outputs ℕ
  unfolding writev_loop
  sys_writev fd vec = writev_loop fd vec 0

-- `prot | PROT_WRITE` is never 0, so the block is always made writable.
unfoldable pub sys_mmap : (prot_write addr len prot flags fd offset : ℕ) → Cmd Paging ℕ
unfolding nearest_page
sys_mmap prot_write addr len prot flags fd offset = do
  pagetable_l4 ← gets paging_get_pagetable_l4
  let pages = nearest_page len
  block ← in_pageframe (pageframe_request_pages pages)
  modify (λ s.
      if not (bit_or prot prot_write == 0)
      then paging_set_attribute pagetable_l4 block pages page_directory_writable true s
      else s)
  pure block

unfoldable pub sys_munmap : (addr len : ℕ) → Cmd Pageframe ℕ
unfolding nearest_page
sys_munmap addr len = do pageframe_free addr (nearest_page len); pure 0

-- `struct winsize`
pub record Winsize : Type 0 where
  pub ws_row : ℕ
  pub ws_col : ℕ
  pub ws_xpixel : ℕ
  pub ws_ypixel : ℕ

-- The size that is written, if the command is TIOCGWINSZ. `charsize` is read from the header of the
-- image, as if that were the font's.
unfoldable pub sys_ioctl :
    (tiocgwinsz : ℕ) → Framebuffer → (image_charsize fd cmd : ℕ) → Option Winsize
sys_ioctl tiocgwinsz framebuffer image_charsize fd cmd =
    if cmd == tiocgwinsz
    then some (record {
      ws_row = framebuffer.width;
      ws_col = framebuffer.height;
      ws_xpixel = module_psf1_width;
      ws_ypixel = image_charsize;
    })
    else none

-- The fields of `struct sysinfo` that are not 0.
pub record Sysinfo : Type 0 where
  pub totalram : ℕ
  pub freeram : ℕ
  pub mem_unit : ℕ

unfoldable pub sys_sysinfo : Pageframe → Sysinfo
sys_sysinfo s = record {
  totalram = memory_get_total_size s;
  freeram = memory_get_free s;
  mem_unit = 1;
}

-- `struct rlimit`
pub record Rlimit : Type 0 where
  pub rlim_cur : ℕ
  pub rlim_max : ℕ

-- RLIM_INFINITY of the C library is an argument.
unfoldable pub sys_getrlimit : (rlim_infinity resource : ℕ) → Rlimit
sys_getrlimit rlim_infinity resource = record { rlim_cur = rlim_infinity; rlim_max = rlim_infinity }

unfoldable pub sys_sched_getaffinity : (pid len user_mask_ptr : ℕ) → ℕ
sys_sched_getaffinity pid len user_mask_ptr = 0

unfoldable pub sys_prlimit64 : (pid resource new_rlim old_rlim : ℕ) → ℕ
sys_prlimit64 pid resource new_rlim old_rlim = 0

unfoldable pub sys_exit : (error_code : ℕ) → ℕ
sys_exit error_code = error_code

-- The functions that a number of a system call stands for.
pub data SysFunction : Type 0 where
  read : SysFunction
  write : SysFunction
  mmap : SysFunction
  munmap : SysFunction
  ioctl : SysFunction
  readv : SysFunction
  writev : SysFunction
  execve : SysFunction
  exit : SysFunction
  getrlimit : SysFunction
  sysinfo : SysFunction
  sched_getaffinity : SysFunction
  prlimit64 : SysFunction
  stub : SysFunction

pub record SysHandler : Type 0 where
  pub num : ℕ
  pub handler : SysFunction

abbrev entry : ℕ → SysFunction → SysHandler
entry num handler = record { num = num; handler = handler }

-- `s_handlers`, with the numbers of `enum SysNum`.
unfoldable pub sys_handlers : List SysHandler
sys_handlers =
    entry 0 read
    ∷ entry 1 write
    ∷ entry 9 mmap
    ∷ entry 11 munmap
    ∷ entry 16 ioctl
    ∷ entry 19 readv
    ∷ entry 20 writev
    ∷ entry 59 execve
    ∷ entry 60 exit
    ∷ entry 97 getrlimit
    ∷ entry 99 sysinfo
    ∷ entry 204 sched_getaffinity
    ∷ entry 302 prlimit64
    ∷ []

unfoldable pub syshandler_get : ℕ → SysFunction
unfolding first_match sys_handlers
syshandler_get num =
    first_match (λ (h : SysHandler). h.num == num) (λ (h : SysHandler). h.handler) stub sys_handlers

unfoldable pub syshandler_stub : ℕ
syshandler_stub = 0
