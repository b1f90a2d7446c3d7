-- ===== src/Lib.antt =====
-- Verification of cnimbus, which builds small Linux VM images from a manifest (a Nimbusfile).
--
-- The program reads a manifest, resolves the kernel it names, lays out the files of an initramfs
-- and packs them, writes a disk image, signs the kernel image if Secure Boot is wanted, and wraps
-- the disk for a hypervisor. The parts that decide what ends up in the image are modelled here:
--
--   Nimbus      internal/nimbusfile/nimbusfile.go. `parse` is Parse on the text of the file: the
--               lines are joined (Lines), ARG lines and ${NAME} are handled (Args), and each
--               directive goes to a handler `apply_…` (Settings, Lists, Agent, Copy), one for each
--               case of the switch in apply. Checks has the validators, Forms the JSON forms and
--               the flags, Valid the rules that an accepted manifest is proved to satisfy; that USER
--               and WORKDIR are not empty and STOPGRACE is positive is in the handlers only, since
--               the default of each is the empty or zero one.
--   Kernelinfo  internal/kernelinfo/kernelinfo.go. Resolve as `resolve`, on the answer of the
--               network, and `resolve_in` on the index.
--   Pieces      internal/pieces/pieces.go and sign.go. Resolve as `resolve_pieces`: the list of
--               hashes and its signature, then the cache (check_cached) or the source (fetch_all,
--               fetch_others) with the checks of every piece.
--   Rootfs      internal/rootfs/tree.go and cpio.go. The fileTree with addDir, addFile and
--               addSymlink (Tree), cleanPath and filepath.Dir (Path), and buildCPIO (Cpio). Unpack
--               is a reader of the format.
--   Rawimage    internal/rawimage/rawimage.go. The layout that Write computes (Layout) and the
--               loop of writeRootPartition (Stream).
--   Iso         internal/isoimage/isoimage.go: the files, boot entries and sizes of Write (Image).
--   Pecoff      internal/secureboot/pecoff.go, and embedWinCertificate of authenticode.go beside
--               it: parsePELayout (Layout), peChecksum (Checksum), authenticodeDigest (Digest),
--               appendSection (Section).
--   Vhd         cmd/cnimbus/run_vhd.go and run_vmdk.go.
--   Kvserve     cmd/cnimbus/kvserve.go. The start of runKVServe and its handler.
--   Scripts     internal/rootfs/build.go and console.go: the texts of the scripts and tables of the
--               guest. Shell has shQuote and shJoin, Inittab buildInittab, Supervisor
--               buildSupervisorScript, AgentScript buildAgentScript, Firewall buildFirewallScript,
--               Boot buildRCScript with its WiFi part, Shutdown, Accounts and Fixed the rest.
--               Reader, Entries and Rules describe what the shell and init do with them: Reader has
--               single quotes and backslashes, and refuses what a shell would expand and double
--               quotes; Rules has the option -e, the trap for EXIT and the variable.
--   Stage       internal/rootfs/frompieces.go, stage1.go and squashfsroot.go: which files travel in
--               the first stage (Shadow, Build), whether they fit their tmpfs (Tmpfs), the script
--               that puts them in place (Init), and the files of the read-only root (Root). Build
--               composes them as BuildImages does, with the archive of Rootfs. Staged describes a
--               shell's run of the script.
--   Build       cmd/cnimbus/build.go: what an accepted manifest becomes for the image (Spec), and
--               the paths of COPY and ADD (Copies). Composed joins the parser with the firewall.
--   Guest       cmd/cnimbusagent: parseHeadersEnv (Headers) and the channel of
--               vmware_linux_amd64.go (Backdoor), and internal/agentruntime/agentruntime.go
--               (Runtime). Host is a host that answers on the channel, Files the files of a guest.
--   Common      what these share: tests, lists, byte slices, text and Go's error results.
--   Examples    runs of the definitions.
--
-- How Go is modelled. A string or a byte slice is a list of numbers (`Text`, `Bytes`): code points
-- in the manifest, the kernel index and the lists of pieces, bytes elsewhere. A value with an
-- error is a `Result`; each error is a constructor without its message, and a Go panic on an index
-- is one too (`panicked`). Integers are native numbers; a conversion to uint8, uint16 or uint32 is
-- written out as a remainder, and theorems with a bound name it where int64 would overflow.
-- Unicode's spaces are exact; upper and lower case are mapped only for letters whose image is
-- ASCII, which is all that the keywords compare. A map is a list of its pairs or keys.
--
-- Fuel. The loop of parseHealthcheckFlags runs on the length of the text, which each round
-- shortens; addDir runs on the length of the path, which each ancestor shortens; the archive
-- reader takes one unit for each member; the two loops over the channel's payload take one unit
-- for each byte, and each of their rounds moves a byte or more. All other loops are structural.
--
-- Parameters. net.ParseIP and json.Unmarshal of the manifest, the HTTP answer, the JSON decoder
-- and sort.Slice of the kernel index, the reads, SHA-256, Ed25519 and the decoders of the pieces,
-- the hash function of the digest, the clock and the generator of identifiers of the VHD footer,
-- the capacity that append leaves, the region of a disk that the diskfs library gives, gzip,
-- and the host behind the guest's channel. The
-- theorems that rely on one name what it does as a hypothesis.
--
-- Not modelled: the commands that start containers and hypervisors, downloads, the compile agent,
-- the writing of the cache of pieces, the SquashFS and ISO writers, key files and the PKCS#7
-- structure of a signature, and the guest agents other than VMware's. The vendored libraries
-- under internal/assets/data are other projects.
pub mod Common
pub mod Nimbus
pub mod Vhd
pub mod Rawimage
pub mod Pecoff
pub mod Rootfs
pub mod Scripts
pub mod Stage
pub mod Build
pub mod Iso
pub mod Guest
pub mod Kernelinfo
pub mod Pieces
pub mod Kvserve
mod Examples
