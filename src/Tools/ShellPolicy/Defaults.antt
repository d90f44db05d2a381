-- ===== src/Tools/ShellPolicy/Defaults.antt =====
-- src/tools/shell_policy.rs: the patterns and the safe commands of the default policy.
use picobot.Base.{Text, codes, List, [], ◌∷◌}

abbrev pub default_deny_patterns : List Text
default_deny_patterns =
    codes "sudo *"
    ∷ codes "su *"
    ∷ codes "doas *"
    ∷ codes "chroot *"
    ∷ codes "rm -rf *"
    ∷ codes "rm -fr *"
    ∷ codes "rm --no-preserve-root *"
    ∷ codes "dd *"
    ∷ codes "wipefs *"
    ∷ codes "blkdiscard *"
    ∷ codes "mkfs* *"
    ∷ codes "fdisk *"
    ∷ codes "sfdisk *"
    ∷ codes "parted *"
    ∷ codes "diskutil *"
    ∷ codes "diskpart *"
    ∷ codes "format *"
    ∷ codes "cryptsetup *"
    ∷ codes "shutdown *"
    ∷ codes "reboot *"
    ∷ codes "halt *"
    ∷ codes "poweroff *"
    ∷ codes "init *"
    ∷ codes "systemctl *"
    ∷ codes "service *"
    ∷ codes "launchctl *"
    ∷ codes "sh *"
    ∷ codes "bash *"
    ∷ codes "zsh *"
    ∷ codes "fish *"
    ∷ codes "dash *"
    ∷ codes "ksh *"
    ∷ codes "csh *"
    ∷ codes "tcsh *"
    ∷ codes "cmd *"
    ∷ codes "python *"
    ∷ codes "python3 *"
    ∷ codes "node *"
    ∷ codes "ruby *"
    ∷ codes "perl *"
    ∷ codes "php *"
    ∷ codes "lua *"
    ∷ codes "rscript *"
    ∷ codes "R *"
    ∷ codes "deno *"
    ∷ codes "bun *"
    ∷ codes "pwsh *"
    ∷ codes "powershell *"
    ∷ []

abbrev pub default_risky_patterns : List Text
default_risky_patterns =
    codes "rm *"
    ∷ codes "mv *"
    ∷ codes "cp *"
    ∷ codes "chmod *"
    ∷ codes "chown *"
    ∷ codes "chgrp *"
    ∷ codes "ln *"
    ∷ codes "mkdir *"
    ∷ codes "rmdir *"
    ∷ codes "touch *"
    ∷ codes "truncate *"
    ∷ codes "tee *"
    ∷ codes "sed *"
    ∷ codes "awk *"
    ∷ codes "tar *"
    ∷ codes "zip *"
    ∷ codes "unzip *"
    ∷ codes "7z *"
    ∷ codes "gzip *"
    ∷ codes "gunzip *"
    ∷ codes "bzip2 *"
    ∷ codes "xz *"
    ∷ codes "git *"
    ∷ codes "hg *"
    ∷ codes "svn *"
    ∷ codes "curl *"
    ∷ codes "wget *"
    ∷ codes "scp *"
    ∷ codes "rsync *"
    ∷ codes "ssh *"
    ∷ codes "sftp *"
    ∷ codes "ftp *"
    ∷ codes "nc *"
    ∷ codes "ncat *"
    ∷ codes "netcat *"
    ∷ codes "socat *"
    ∷ codes "openssl *"
    ∷ codes "mount *"
    ∷ codes "umount *"
    ∷ codes "iptables *"
    ∷ codes "ufw *"
    ∷ codes "pfctl *"
    ∷ codes "route *"
    ∷ codes "ifconfig *"
    ∷ codes "ip *"
    ∷ codes "docker *"
    ∷ codes "podman *"
    ∷ codes "kubectl *"
    ∷ codes "helm *"
    ∷ codes "terraform *"
    ∷ codes "ansible *"
    ∷ codes "make *"
    ∷ codes "cmake *"
    ∷ codes "npm *"
    ∷ codes "npx *"
    ∷ codes "pnpm *"
    ∷ codes "yarn *"
    ∷ codes "pip *"
    ∷ codes "pip3 *"
    ∷ codes "cargo *"
    ∷ codes "go *"
    ∷ codes "dotnet *"
    ∷ codes "java *"
    ∷ codes "javac *"
    ∷ codes "gradle *"
    ∷ codes "mvn *"
    ∷ codes "psql *"
    ∷ codes "mysql *"
    ∷ codes "sqlite3 *"
    ∷ codes "redis-cli *"
    ∷ codes "kill *"
    ∷ codes "killall *"
    ∷ []

abbrev pub default_safe_commands : List Text
default_safe_commands =
    codes "ls"
    ∷ codes "pwd"
    ∷ codes "whoami"
    ∷ codes "date"
    ∷ codes "echo"
    ∷ codes "cat"
    ∷ codes "grep"
    ∷ codes "egrep"
    ∷ codes "fgrep"
    ∷ codes "rg"
    ∷ codes "fd"
    ∷ codes "find"
    ∷ codes "head"
    ∷ codes "tail"
    ∷ codes "wc"
    ∷ codes "uname"
    ∷ codes "which"
    ∷ codes "stat"
    ∷ codes "du"
    ∷ codes "df"
    ∷ codes "ps"
    ∷ codes "top"
    ∷ codes "uptime"
    ∷ codes "id"
    ∷ codes "groups"
    ∷ codes "hostname"
    ∷ codes "who"
    ∷ codes "w"
    ∷ codes "env"
    ∷ codes "printenv"
    ∷ codes "sort"
    ∷ codes "uniq"
    ∷ codes "cut"
    ∷ codes "tr"
    ∷ codes "basename"
    ∷ codes "dirname"
    ∷ codes "realpath"
    ∷ codes "readlink"
    ∷ codes "file"
    ∷ codes "lsblk"
    ∷ codes "free"
    ∷ codes "vm_stat"
    ∷ codes "ipconfig"
    ∷ codes "systeminfo"
    ∷ codes "tasklist"
    ∷ []
