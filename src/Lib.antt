-- ===== src/Lib.antt =====
-- A model of void-init, the program that sets a Void Linux machine up at its first boot from
-- cloud-init data, and void-initfs, the program that builds the image of such a machine.
--
-- The parts, and the files that model them:
--
--   Base, Text        what both programs use of Go: errors with their contexts, calls that change
--                     the host and may fail, and the functions of strings, bytes, strconv, unicode
--                     and path/filepath. A string is the list of its bytes.
--   Vlog              internal/vlog. Level and Logger are vlog.go, Rotate is rotate.go (one function
--                     per method; the writer is a record that each call returns anew). Disk is what
--                     it calls of the os package, with the documented behaviour as laws; Disk/Handles
--                     has those on open files and the standard error.
--   Os                what the commands call of the host, over an unknown state. Files states what is
--                     relied on of files, with Files/Copies and Files/Owners for copies and owners;
--                     Files/Changes is the view of a host as a function from paths to files, over
--                     which lists of entries are laid. Memory is a host in memory for the concrete
--                     runs.
--   Managed           the user config marker and the text of a managed file of
--                     cmd/void-init/fsutil.go. Initfs/Util has the copies of cmd/void-initfs/util.go.
--   Init              cmd/void-init: Log (log.go), Fsutil (fsutil.go), UserData (userdata.go), Apply
--                     (apply.go), Runit (runit.go), Hosts (hosts.go), Network (network.go), Cloudinit
--                     (cloudinit.go), Main (main.go: the order of the steps, and the status of the
--                     process).
--   Initfs            cmd/void-initfs: Log (log.go), Util (util.go), Flags (flags.go; Flags/Parse has
--                     parseFlags with the loop of the standard flag package), Exec (exec.go, nspawn.go), Cleanup
--                     (cleanup.go; Cleanup/Race has the threads of main.go that share the stack, and
--                     the end of the process), Layout, Nbd and Image (image.go; Image/Mounts has what
--                     a mount leaves to be undone), Install (install.go, keys.go), Bootstrap (bootstrap.go),
--                     Bootloader and Grub (bootloader.go; Grub has the lines of /etc/default/grub),
--                     Fstab (fstab.go), BashPrompt (bashprompt.go), Shutdown (shutdown.go), Xbps
--                     (xbps.go, with Tools, Download and Checksum; Files and Ensured have what a run
--                     leaves), Preflight (preflight.go), Run and Main (main.go).
--
-- How they interact: each handler of the commands is an action on the host's state, with its logging
-- lines and its calls in the order of the code. A line that they log goes to the parameter Os.log; Log
-- of each program is the logger that stands behind it. User data that `parse_user_data` accepts goes to
-- `apply_user_data` of Init/Apply; its files are managed files of Init/Fsutil. Actions on images run
-- beside the stack of Initfs/Cleanup, whose callbacks undo them. Initfs/Run composes all of this into
-- the build and the reuse of an image; the calls below the mounts do not reach the stack and are one
-- action on the host there.
--
-- Bounds and fuel: sizes are natural numbers, since a log segment stays far below the end of int64.
-- `atoi` and `parse_uint` keep Go's 64-bit ranges. The poll for the block device's size runs on 52
-- rounds, which are enough for its timeout of 5000 ms at 100 ms a round. Decimal digits are printed on
-- fuel that the number itself gives.
--
-- Not under the repository, and so parameters: the host's calls with the laws named above, the clock,
-- HTTP, the terminal, temporary files, WalkDir and SHA-256 (the record Remote of Initfs/Xbps/Download),
-- the decoder of gopkg.in/yaml.v3, text/template, net.ParseIP, net.ParseMAC and `%q` of fmt. No law
-- on files speaks of symbolic links: paths with different names are taken for different files. A download's body
-- is written to its file at once; `strings.ToLower` of an answer is that of ASCII.
--
-- Not modelled: the output of commands that is shown while they run, the usage texts of the flag
-- package, and the panics of the standard library.
pub mod Base
pub mod Init
pub mod Initfs
pub mod Managed
pub mod Os
pub mod Text
pub mod Vlog
