-- ===== src/Nimbus/Directive.antt =====
-- The case labels of `apply`: the directive words.
use cnimbus.Common.{if◌then◌else◌}
use cnimbus.Common.Text.{Text, codes, eqt}

pub data Directive : Type 0 where
  kernel busybox arch vga hardboot wifi wifipsk wificountry hostname dhcp ip dns ntp : Directive
  format user workdir label expose healthcheck restart volume env : Directive
  firewall firewall6 firewall_on_error tmpsize stopgrace pieceskey service agent : Directive
  copy add entrypoint cmd unknown : Directive

-- The words from FORMAT on.
unfoldable pub later_directive : Text → Directive
unfolding eqt
later_directive word =
    if eqt word (codes "FIREWALL")
    then firewall
    else if eqt word (codes "FIREWALL6")
    then firewall6
    else if eqt word (codes "FIREWALL_ON_ERROR")
    then firewall_on_error
    else if eqt word (codes "TMPSIZE")
    then tmpsize
    else if eqt word (codes "STOPGRACE")
    then stopgrace
    else if eqt word (codes "PIECESKEY")
    then pieceskey
    else if eqt word (codes "SERVICE")
    then service
    else if eqt word (codes "AGENT")
    then agent
    else if eqt word (codes "COPY")
    then copy
    else if eqt word (codes "ADD")
    then add
    else if eqt word (codes "ENTRYPOINT")
    then entrypoint
    else if eqt word (codes "CMD")
    then cmd
    else unknown

-- The words from FORMAT to ENV.
unfoldable pub middle_directive : Text → Directive
unfolding later_directive
middle_directive word =
    if eqt word (codes "FORMAT")
    then format
    else if eqt word (codes "USER")
    then user
    else if eqt word (codes "WORKDIR")
    then workdir
    else if eqt word (codes "LABEL")
    then label
    else if eqt word (codes "EXPOSE")
    then expose
    else if eqt word (codes "HEALTHCHECK")
    then healthcheck
    else if eqt word (codes "RESTART")
    then restart
    else if eqt word (codes "VOLUME")
    then volume
    else if eqt word (codes "ENV")
    then env
    else later_directive word

-- The `switch` on the directive's word.
unfoldable pub directive_of : Text → Directive
unfolding middle_directive
directive_of word =
    if eqt word (codes "KERNEL")
    then kernel
    else if eqt word (codes "BUSYBOX")
    then busybox
    else if eqt word (codes "ARCH")
    then arch
    else if eqt word (codes "VGA")
    then vga
    else if eqt word (codes "HARDBOOT")
    then hardboot
    else if eqt word (codes "WIFI")
    then wifi
    else if eqt word (codes "WIFIPSK")
    then wifipsk
    else if eqt word (codes "WIFICOUNTRY")
    then wificountry
    else if eqt word (codes "HOSTNAME")
    then hostname
    else if eqt word (codes "DHCP")
    then dhcp
    else if eqt word (codes "IP")
    then ip
    else if eqt word (codes "DNS")
    then dns
    else if eqt word (codes "NTP")
    then ntp
    else middle_directive word
